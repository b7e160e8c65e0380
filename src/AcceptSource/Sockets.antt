-- ===== src/AcceptSource/Sockets.antt =====
-- bluetoothsources.cc: the listening socket is not leaked, and what the dispatch of its events does.
use stmm_input_bt.Base.{
  ℕ, ◌+◌, ◌≤◌, ◌≡◌, ◌⊎◌, ◌||◌, inl, inr, refl, subst, is_some, Option, true, Returns, Bool-cases,
  Option-cases, ℕ_discrete, Bool, false, List, [], ◌∷◌, none, some, ◌==◌, if◌then◌else◌, arith,
}
use stmm_input_bt.BdAddr.{BdAddr}
use stmm_input_bt.KeyClient.State.{SysCall, ok, err}
use stmm_input_bt.ReceiveSource.{IoFlags}
use stmm_input_bt.AcceptSource.{
  check, serve_accepted, dispatch_accept, SocketEvent, opened, closed, AcceptSource, ListenCalls,
  create_source, destroy_source, connect_source, init_server,
}

-- How often a socket was opened, and closed.
abbrev pub openings : ℕ → List SocketEvent → ℕ
openings fd [] = 0
openings fd (opened n ∷ events) = (if n == fd then 1 else 0) + openings fd events
openings fd (closed n ∷ events) = openings fd events

abbrev pub closings : ℕ → List SocketEvent → ℕ
closings fd [] = 0
closings fd (opened n ∷ events) = closings fd events
closings fd (closed n ∷ events) = (if n == fd then 1 else 0) + closings fd events

abbrev pub is_listener : ℕ → AcceptSource → Bool
is_listener fd s = elim s.listener_fd [ none ↦ false | some n ↦ n == fd ]

-- Whichever of the system calls of `initServer` fails: it returns an error exactly if the source cannot
-- be connected; each socket that was opened is the listener or was closed, and only once; and once the
-- source is destroyed, each socket was closed as often as opened.
pub init_server_lem :
    (sys : ListenCalls) (fd : ℕ)
    → ((init_server sys).1 ≡ connect_source (init_server sys).0)
      × (openings fd (init_server sys).0.sockets
          ≡ closings fd (init_server sys).0.sockets
            + (if is_listener fd (init_server sys).0 then 1 else 0))
      × (openings fd (destroy_source (init_server sys).0).sockets
          ≡ closings fd (destroy_source (init_server sys).0).sockets)
unfolding init_server create_source destroy_source
init_server_lem sys fd = ground arith

-- `accept` hands out no file descriptor that is open.
abbrev pub IsFresh : AcceptSource → SysCall (ℕ × BdAddr) → Type 0
IsFresh s (err n) = Unit
IsFresh s (ok (fd, addr)) = openings fd s.sockets ≡ closings fd s.sockets

-- Each file descriptor was opened at most once more than closed: the listener's, and those of the clients,
-- which the slot owns.
abbrev pub AreOwned : AcceptSource → Type 0
AreOwned s =
    (fd : ℕ)
    → (closings fd s.sockets ≤ openings fd s.sockets)
      × (openings fd s.sockets ≤ closings fd s.sockets + 1)
      × (is_listener fd s ≡ true → openings fd s.sockets ≡ closings fd s.sockets + 1)

opened-AreOwned :
    (s : AcceptSource) (n : ℕ)
    → openings n s.sockets ≡ closings n s.sockets
    → AreOwned s
    → AreOwned (record s { sockets = opened n ∷ s.sockets })
opened-AreOwned s n fresh h fd =
    let (low, high, listener) = h fd in
    elim (ℕ_discrete n fd) [
      | yes here ↦
          let fresh' : openings fd s.sockets ≡ closings fd s.sockets =
            subst (λ x. openings x s.sockets ≡ closings x s.sockets) here fresh in
          ground (arith, here, fresh', low, high, listener)
      | no other ↦ ground (arith, other, low, high, listener)
    ]

module _ {S : Type 0} (slot : ℕ → BdAddr → S → Option (S × Bool)) where
  -- The slot was not called, and the source goes on; or it was called for a client, which waited, and its
  -- results are those of the dispatch.
  abbrev pub IsDispatched :
      IoFlags → SysCall (ℕ × BdAddr) → AcceptSource → S → AcceptSource × S × Bool → Type 0
  IsDispatched flags accepted source s r =
      ((r.0 ≡ source) × (r.1 ≡ s) × (r.2 ≡ true))
      ⊎ ((fd : ℕ) × (addr : BdAddr) × (accepted ≡ ok (fd, addr))
          × (flags.input ≡ true)
          × ((flags.hang_up || flags.error || flags.invalid) ≡ false)
          × (r.0 ≡ record source { sockets = opened fd ∷ source.sockets })
          × (slot fd addr s ≡ some (r.1, r.2)))

  accepted-lem :
      (flags : IoFlags) (accepted : SysCall (ℕ × BdAddr)) (source : AcceptSource) (s : S)
      → ((fd : ℕ) (addr : BdAddr) → is_some (slot fd addr s) ≡ true)
      → AreOwned source
      → IsFresh source accepted
      → flags.input ≡ true
      → (flags.hang_up || flags.error || flags.invalid) ≡ false
      → Returns
          (λ r. AreOwned r.0 × IsDispatched flags accepted source s r)
          (serve_accepted slot accepted source s)
  unfolding serve_accepted
  accepted-lem flags (err n) source s answers owned fresh waits good =
      (owned, inl (refl, refl, refl))
  accepted-lem flags (ok (fd, addr)) source s answers owned fresh waits good =
      elim (Option-cases (slot fd addr s)) [
        | inl silent ↦ absurd (ground (arith, answers fd addr, silent))
        | inr ((s', continues), e) ↦
            rw e (opened-AreOwned source fd fresh owned, inr (fd, addr, refl, waits, good, refl, e))
      ]

  -- Events of the listening socket, reported by the poll, where a slot is connected that returns for every
  -- client, and `::accept` gives a file descriptor that is not open: the dispatch returns, and calls
  -- the slot only for a client that was accepted, when input and no error was reported, else it changes
  -- nothing and goes on; and each file descriptor was opened as often as closed, or once more, which
  -- the listener was.
  pub dispatch_accept_lem :
      (flags : IoFlags) (accepted : SysCall (ℕ × BdAddr)) (source : AcceptSource) (s : S)
      → ((fd : ℕ) (addr : BdAddr) → is_some (slot fd addr s) ≡ true)
      → check flags ≡ true
      → AreOwned source
      → IsFresh source accepted
      → Returns
          (λ r. AreOwned r.0 × IsDispatched flags accepted source s r)
          (dispatch_accept slot true flags accepted source s)
  unfolding dispatch_accept
  dispatch_accept_lem flags accepted source s answers ready owned fresh =
      elim (Bool-cases (flags.hang_up || flags.error || flags.invalid)) [
        | inl bad ↦ rw (dispatch_accept, ready, bad) (owned, inl (refl, refl, refl))
        | inr good ↦ elim (Bool-cases flags.input) [
          | inr nothing ↦ rw (dispatch_accept, ready, good, nothing) (owned, inl (refl, refl, refl))
          | inl waits ↦
              let serves : dispatch_accept slot true flags accepted source s
                  ≡ serve_accepted slot accepted source s =
                rw (dispatch_accept, ready, good, waits) refl in
              rw serves (accepted-lem flags accepted source s answers owned fresh waits good)
        ]
      ]

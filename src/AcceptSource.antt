-- ===== src/AcceptSource.antt =====
-- libstmm-input-gtk-bt/src/bluetoothsources.cc, `BlueServerAcceptSource`, and `initServer` of btgtkbackend.cc:
-- the socket that listens for clients. The results of the system calls are arguments.
mod Sockets
mod Tests
use stmm_input_bt.Base.{
  ℕ, Bool, true, false, not, ◌||◌, List, [], ◌∷◌, Option, none, some, if◌then◌else◌, ◌>>=◌, ◌>>◌,
  assert, is_some,
}
use stmm_input_bt.BdAddr.{BdAddr}
use stmm_input_bt.KeyClient.State.{SysCall, ok, err}
use stmm_input_bt.ReceiveSource.{IoFlags}

-- `m_sErrorStr`; an argument is the errno.
pub data AcceptError : Type 0 where
  no_error : AcceptError
  socket_failed bind_failed listen_failed : ℕ → AcceptError

-- What happened to sockets, the newest first.
pub data SocketEvent : Type 0 where
  opened closed : ℕ → SocketEvent

-- The file descriptor -1 is `none`; `polled` is whether the socket was added to the poll.
pub record AcceptSource : Type 0 where
  pub listener_fd : Option ℕ
  pub error : AcceptError
  pub polled : Bool
  pub sockets : List SocketEvent

-- The results of the system calls of the constructor, as far as they are made.
pub record ListenCalls : Type 0 where
  pub socket : SysCall ℕ
  pub bind : SysCall (Unit {0})
  pub listen : SysCall (Unit {0})

-- The socket is closed after an error.
abbrev pub failed_source : ℕ → AcceptError → AcceptSource
failed_source fd error = record {
  listener_fd = none;
  error = error;
  polled = false;
  sockets = closed fd ∷ opened fd ∷ [];
}

-- The constructor.
unfoldable pub create_source : ListenCalls → AcceptSource
create_source sys = elim sys.socket [
  | err n ↦ record { listener_fd = none; error = socket_failed n; polled = false; sockets = [] }
  | ok fd ↦ elim sys.bind [
    | err n ↦ failed_source fd (bind_failed n)
    | ok _ ↦ elim sys.listen [
      | err n ↦ failed_source fd (listen_failed n)
      | ok _ ↦ record {
        listener_fd = some fd;
        error = no_error;
        polled = true;
        sockets = opened fd ∷ [];
      }
    ]
  ]
]

-- The destructor.
unfoldable pub destroy_source : AcceptSource → AcceptSource
destroy_source s = elim s.listener_fd [
  | none ↦ s
  | some fd ↦ record s { sockets = closed fd ∷ s.sockets }
]

-- `connect`: whether the connection is not empty.
abbrev pub connect_source : AcceptSource → Bool
connect_source s = is_some s.listener_fd

has_error : AcceptError → Bool
has_error no_error = false
has_error _ = true

-- `initServer`: whether it returns no error. The source is connected and attached then.
unfoldable pub init_server : ListenCalls → AcceptSource × Bool
unfolding create_source has_error
init_server sys = let s = create_source sys in (s, not (has_error s.error))

-- `check`, which both sources have.
unfoldable pub check : IoFlags → Bool
check flags = flags.input || flags.hang_up || flags.error || flags.invalid

-- `::accept`: the file descriptor and the address of a client, or an errno. The slot is a parameter.
module _ {S : Type 0} (slot : ℕ → BdAddr → S → Option (S × Bool)) where
  -- What `dispatch` does with the result of `::accept`.
  unfoldable pub serve_accepted :
      SysCall (ℕ × BdAddr) → AcceptSource → S → Option (AcceptSource × S × Bool)
  serve_accepted (err n) source s = some (source, s, true)
  serve_accepted (ok (fd, addr)) source s = do
    (s', continues) ← slot fd addr s
    some (record source { sockets = opened fd ∷ source.sockets }, s', continues)

  -- `dispatch`, with whether there is a slot.
  unfoldable pub dispatch_accept :
      Bool → IoFlags → SysCall (ℕ × BdAddr) → AcceptSource → S → Option (AcceptSource × S × Bool)
  unfolding check serve_accepted
  dispatch_accept has_slot flags accepted source s =
      let polled_error = flags.hang_up || flags.error || flags.invalid in
      let served = serve_accepted accepted source s in
      let dispatched = (do
        assert (check flags)
        if polled_error
            then some (source, s, true)
            else if not flags.input
            then some (source, s, true)
            else served) in
      if not has_slot then some (source, s, true) else dispatched

-- ===== src/KeyClient/Stops.antt =====
-- btkeyclient.cc: exactly which calls of the sending operations stop the program.
use stmm_input_bt.Base.{
  ℕ, ◌≡◌, ◌⊎◌, inl, inr, refl, Bool, true, false, not, ◌&&◌, ◌||◌, ◌==◌, is_some, Option, none,
  some, arith, Returns, Bool-cases, ℕ_discrete,
}
use stmm_input_bt.KeyClient.State.{
  connected, sending, same, SendResult, KeyClient, send_buffer_size,
}
use stmm_input_bt.KeyClient.Send.{
  do_pending_send, send_remove, noop_fits, noop_due, do_interval_timeout,
}
use stmm_input_bt.KeyClient.Invariant.{IsConsistent}
use stmm_input_bt.KeyClient.SendSafety.{
  send_remove-aborts, send_remove-IsConsistent, do_interval_timeout-aborts,
  do_interval_timeout-IsConsistent, do_pending_send-aborts, do_pending_send-IsConsistent,
}

-- Of a call on a consistent client: it stops the program exactly if the test holds, and otherwise returns and
-- keeps the invariant.
abbrev pub StopsIf : {A : Type 0} → Bool → (A → Type 0) → Option A → Type 0
StopsIf test P m = (is_some m ≡ not test) × ((m ≡ none) ⊎ Returns P m)

stops :
    {A : Type 0} (P : A → Type 0) (test : Bool) (m : Option A)
    → test ≡ true
    → m ≡ none
    → StopsIf test P m
stops P test m at e = rw (at, e) (refl, inl refl)

returns :
    {A : Type 0} (P : A → Type 0) (test : Bool) (m : Option A)
    → test ≡ false
    → Returns P m
    → StopsIf test P m
returns P test none at h = absurd h
returns P test (some a) at h = rw at (refl, inr h)

-- `sendRemoveToServer` of a consistent client, whatever the socket answers: it stops the program, at the
-- assertion of `write`, exactly if the client is connected and its buffer is full; otherwise it
-- returns and keeps the invariant.
pub send_remove_lem :
    (c : KeyClient) (r : SendResult)
    → IsConsistent c
    → StopsIf
        (same c.state connected && c.buffered_keys.count == send_buffer_size)
        IsConsistent
        (send_remove c r)
send_remove_lem c r v = elim (Bool-cases (same c.state connected)) [
  | inr other ↦
      returns IsConsistent _ _ (ground arith) (send_remove-IsConsistent c r v (inl (ground arith)))
  | inl at ↦ elim (ℕ_discrete c.buffered_keys.count send_buffer_size) [
    | yes full ↦
        stops IsConsistent _ _ (ground arith) (send_remove-aborts c r v (ground arith) full)
    | no room ↦ returns IsConsistent _ _ (ground arith) (send_remove-IsConsistent c r v (inr room))
  ]
]

-- `doIntervalTimeout` of a consistent client, whatever the socket answers: it stops the program, at its
-- assertion or where it is undefined, exactly if the client is connected and either twice its timeout
-- for sending does not fit in 31 bits while there is a time for NOOP packets, or a NOOP packet is due
-- and keys are still buffered;
-- otherwise it returns and keeps the invariant.
pub do_interval_timeout_lem :
    (c : KeyClient) (r : SendResult) (t : ℕ)
    → IsConsistent c
    → c.interval_timeout ≡ some t
    → StopsIf
        (same c.state connected
          && (not (noop_fits c) || (noop_due c t && not (c.buffered_keys.count == 0))))
        IsConsistent
        (do_interval_timeout c r)
do_interval_timeout_lem c r t v timer = elim (Bool-cases (same c.state connected)) [
  | inr other ↦
      returns IsConsistent _ _ (ground arith)
        (do_interval_timeout-IsConsistent c r t v timer (inl (ground arith)))
  | inl at ↦ elim (Bool-cases (noop_fits c)) [
    | inr huge ↦
        stops IsConsistent _ _ (ground (arith, at, huge))
          (do_interval_timeout-aborts c r t (ground arith) timer (inl huge))
    | inl fits ↦ elim (Bool-cases (noop_due c t)) [
      | inr early ↦
          returns IsConsistent _ _ (ground (arith, at, fits, early))
            (do_interval_timeout-IsConsistent c r t v timer (inr (fits, inl early)))
      | inl due ↦ elim (ℕ_discrete c.buffered_keys.count 0) [
        | yes nothing ↦
            returns IsConsistent _ _ (ground (arith, fits, nothing))
              (do_interval_timeout-IsConsistent c r t v timer (inr (fits, inr nothing)))
        | no keys ↦
            stops IsConsistent _ _ (ground (arith, at, fits, due, keys))
              (do_interval_timeout-aborts c r t (ground arith) timer (inr (due, omega arith)))
      ]
    ]
  ]
]

-- The source is the current one.
abbrev pub is_current : ℕ → Option ℕ → Bool
is_current id none = false
is_current id (some current) = current == id

-- `doPendingSend` of a consistent client, whatever the socket answers: it stops the program, at its
-- assertion, exactly if the source that calls is the current one and the state is not SENDING;
-- otherwise it returns and keeps the invariant.
pub do_pending_send_lem :
    (c : KeyClient) (id : ℕ) (error : Bool) (r again : SendResult)
    → IsConsistent c
    → StopsIf
        (is_current id c.pending_send && not (same c.state sending))
        (λ x. IsConsistent x.0)
        (do_pending_send c id error r again)
do_pending_send_lem c id error r again v = elim (Bool-cases (same c.state sending)) [
  | inl at ↦
      returns (λ x. IsConsistent x.0) _ _ (ground (arith, at))
        (do_pending_send-IsConsistent c id error r again v (inr (ground arith)))
  | inr other ↦ elim (Bool-cases (is_current id c.pending_send)) [
    | inl current ↦
        stops (λ x. IsConsistent x.0) _ _ (ground (arith, current, other))
          (do_pending_send-aborts c id error r again (ground (arith, current)) (ground arith))
    | inr stale ↦
        returns (λ x. IsConsistent x.0) _ _ (ground (arith, stale))
          (do_pending_send-IsConsistent c id error r again v (inl (ground (arith, stale))))
  ]
]

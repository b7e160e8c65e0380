-- ===== src/KeyClient/SendSafety.antt =====
-- btkeyclient.cc: which calls of the sending operations return, and that they keep the invariant.
use stmm_input_bt.Base.{
  ℕ, ◌<◌, ◌≡◌, ◌≢◌, ◌⊎◌, inl, inr, Bool, true, false, none, some, pos, length, arith, Returns,
  Option-cases, Bool-cases, take, ap, ◌∷◌, ℕ_discrete,
}
use stmm_input_bt.CircularBuffer.{clear, is_empty}
use stmm_input_bt.CircularBuffer.Refine.{length-to_list, write_lem, write-full, clear_lem}
use stmm_input_bt.KeyPacket.{key_remove_device, key_noop}
use stmm_input_bt.KeyClient.State.{
  connected, sending, same, Key, SendResult, accepted, would_block, refused, sending_failed, sent,
  KeyClient, send_buffer_size,
}
use stmm_input_bt.KeyClient.Connect.{disconnect_internal}
use stmm_input_bt.KeyClient.Send.{
  resend, do_pending_send, send_key, send_remove, noop_fits, noop_due, do_interval_timeout,
}
use stmm_input_bt.KeyClient.Invariant.{IsConsistent, disconnect_internal-IsConsistent}
use stmm_input_bt.KeyClient.Batch.{
  is_linked, send_packets-IsConsistent, with_buffer, with_buffer-IsReady, push_lem,
}

-- `sendKeyToServer` of any key in any state of a consistent client returns and keeps the invariant,
-- whatever the socket answers.
pub send_key-IsConsistent :
    (c : KeyClient) (key : Key) (r : SendResult)
    → IsConsistent c
    → Returns IsConsistent (send_key c key r)
unfolding send_key
send_key-IsConsistent c key r v =
    let (room, b', made, put, valid, cap, filled, content) =
      push_lem c.buffered_keys key v.ready.buffer (omega (arith, v.ready.room)) in
    ground (
      arith,
      made,
      put,
      with_buffer-IsReady c b' v.ready,
      send_packets-IsConsistent (with_buffer c b') r,
    )

-- The assertion of `write`.
pub send_remove-aborts :
    (c : KeyClient) (r : SendResult)
    → IsConsistent c
    → c.state ≡ connected
    → c.buffered_keys.count ≡ send_buffer_size
    → send_remove c r ≡ none
unfolding send_remove
send_remove-aborts c r v at full = ground (arith, write-full c.buffered_keys (key_remove_device, 0))

pub send_remove-IsConsistent :
    (c : KeyClient) (r : SendResult)
    → IsConsistent c
    → (c.state ≢ connected) ⊎ (c.buffered_keys.count ≢ send_buffer_size)
    → Returns IsConsistent (send_remove c r)
unfolding send_remove
send_remove-IsConsistent c r v h = elim (Bool-cases (same c.state sending)) [
  | inl at ↦
      let (vb, nothing, cap) = clear_lem c.buffered_keys v.ready.buffer in
      let (b', put, valid, tail, cap', count) =
        write_lem (clear c.buffered_keys) (key_remove_device, 0) vb
          (omega (
            arith,
            cap,
            v.ready.room,
            length-to_list (clear c.buffered_keys) vb,
            ap length nothing,
          )) in
      ground (
        arith,
        put,
        with_buffer-IsReady c b' v.ready,
        send_packets-IsConsistent (with_buffer c b') r,
      )
  | inr at ↦ elim (Bool-cases (is_linked c.state)) [
    | inr idle ↦ ground arith
    | inl linked ↦
        let (b', put, valid, tail, cap', count) =
          write_lem c.buffered_keys (key_remove_device, 0) v.ready.buffer (ground arith) in
        ground (
          arith,
          put,
          with_buffer-IsReady c b' v.ready,
          send_packets-IsConsistent (with_buffer c b') r,
        )
  ]
]

pub do_interval_timeout-aborts :
    (c : KeyClient) (r : SendResult) (t : ℕ)
    → c.state ≡ connected
    → c.interval_timeout ≡ some t
    → (noop_fits c ≡ false) ⊎ ((noop_due c t ≡ true) × (0 < c.buffered_keys.count))
    → do_interval_timeout c r ≡ none
unfolding do_interval_timeout is_empty
do_interval_timeout-aborts c r t at timer (inl huge) = ground (arith, huge)
do_interval_timeout-aborts c r t at timer (inr (due, some_key)) = ground (arith, due, some_key)

pub do_interval_timeout-IsConsistent :
    (c : KeyClient) (r : SendResult) (t : ℕ)
    → IsConsistent c
    → c.interval_timeout ≡ some t
    → (c.state ≢ connected)
      ⊎ ((noop_fits c ≡ true) × ((noop_due c t ≡ false) ⊎ (c.buffered_keys.count ≡ 0)))
    → Returns IsConsistent (do_interval_timeout c r)
unfolding do_interval_timeout is_empty disconnect_internal
do_interval_timeout-IsConsistent c r t v timer h = elim (ℕ_discrete c.buffered_keys.count 0) [
  | yes nothing ↦
      let (b', put, valid, tail, cap', count) =
        write_lem c.buffered_keys (key_noop, 0) v.ready.buffer (omega (arith, v.ready.room)) in
      ground (
        arith,
        put,
        with_buffer-IsReady c b' v.ready,
        send_packets-IsConsistent (with_buffer c b') r,
      )
  | no some_key ↦ ground arith
]

pub do_pending_send-aborts :
    (c : KeyClient) (id : ℕ) (error : Bool) (r again : SendResult)
    → c.pending_send ≡ some id
    → c.state ≢ sending
    → do_pending_send c id error r again ≡ none
unfolding do_pending_send
do_pending_send-aborts c id error r again at h = ground arith

-- The client whose pending packets were just accepted.
abbrev resent : KeyClient → ℕ → KeyClient
resent c t = record c {
  last_sent = pos t;
  effects = sent (take c.tot_packets c.packets) ∷ c.effects;
}

resend-IsConsistent :
    (c : KeyClient) (r again : SendResult)
    → IsConsistent c
    → c.state ≡ sending
    → Returns (λ x. IsConsistent x.0) (resend c r again)
unfolding resend is_empty
resend-IsConsistent c would_block again v at = disconnect_internal-IsConsistent c _ v
resend-IsConsistent c (refused n) again v at = disconnect_internal-IsConsistent c _ v
resend-IsConsistent c accepted again v at = elim (Option-cases c.interval_timeout) [
  | inl missing ↦ ground arith
  | inr (t, timer) ↦ ground (arith, send_packets-IsConsistent (resent c t) again)
]

pub do_pending_send-IsConsistent :
    (c : KeyClient) (id : ℕ) (error : Bool) (r again : SendResult)
    → IsConsistent c
    → (c.pending_send ≢ some id) ⊎ (c.state ≡ sending)
    → Returns (λ x. IsConsistent x.0) (do_pending_send c id error r again)
unfolding do_pending_send
do_pending_send-IsConsistent c id error r again v h =
    ground
      (arith, resend-IsConsistent c r again, disconnect_internal-IsConsistent c sending_failed v)

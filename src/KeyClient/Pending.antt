-- ===== src/KeyClient/Pending.antt =====
-- btkeyclient.cc, `doPendingSend`: a pending batch that the socket takes is followed by the keys that came
-- meanwhile.
use stmm_input_bt.Base.{
  ℕ, ◌+◌, ◌≡◌, inl, inr, refl, sym, ap, ◌∙◌, ◌≢◌, Bool, true, false, List, [], ◌∷◌, some, arith,
  Returns, Returns->>=, Option-cases, Bool-cases, take, pos, length, ◌>>=◌,
}
use stmm_input_bt.CircularBuffer.{CircularBuffer, is_empty}
use stmm_input_bt.CircularBuffer.Refine.{to_list, to_list-empty, length-to_list}
use stmm_input_bt.KeyPacket.{KeyPacket}
use stmm_input_bt.KeyClient.State.{
  connected, sending, Key, accepted, sent, state_changed, Effect, KeyClient,
}
use stmm_input_bt.KeyClient.Drain.{packed, last_state, Drained}
use stmm_input_bt.KeyClient.Send.{after_send, send_packets, resend, do_pending_send}
use stmm_input_bt.KeyClient.Invariant.{IsReady, IsConsistent}
use stmm_input_bt.KeyClient.Batch.{with_packets, send_packets_lem}
use stmm_input_bt.KeyClient.Delivery.{has_removal, last_state-sending}

-- The client is connected with no key left to be sent, and these are the effects.
abbrev pub Followed : List Effect → KeyClient → Type 0
Followed effects c' =
    (c'.state ≡ connected) × (to_list c'.buffered_keys ≡ []) × (c'.effects ≡ effects)

after_send-Followed :
    (c : KeyClient) (b : CircularBuffer Key) (ps : List KeyPacket)
    → IsReady c
    → c.state ≡ sending
    → has_removal (to_list c.buffered_keys) ≡ false
    → Drained c.buffered_keys c.packets 0 b ps
    → Returns
        (Followed (state_changed ∷ sent (packed (to_list c.buffered_keys) c.packets) ∷ c.effects))
        (after_send
          (with_packets c b ps (0 + c.buffered_keys.count))
          c.state
          (last_state (to_list c.buffered_keys) sending)
          accepted)
unfolding after_send
after_send-Followed c b ps v at h d =
    rw (last_state-sending (to_list c.buffered_keys) h)
      (ground (arith, d.built, to_list-empty b d.emptied))

send_packets-Followed :
    (c : KeyClient)
    → IsReady c
    → c.state ≡ sending
    → has_removal (to_list c.buffered_keys) ≡ false
    → Returns
        (Followed (state_changed ∷ sent (packed (to_list c.buffered_keys) c.packets) ∷ c.effects))
        (send_packets c accepted)
send_packets-Followed c v at h =
    let (b, ps, d, e) = send_packets_lem c accepted v in rw e (after_send-Followed c b ps v at h d)

-- The client whose pending packets were just taken.
abbrev taken : KeyClient → ℕ → KeyClient
taken c t = record c {
  last_sent = pos t;
  effects = sent (take c.tot_packets c.packets) ∷ c.effects;
}

-- The keys that came meanwhile, as packets on the wire: nothing if there are none.
abbrev pub follow_up : List Key → List KeyPacket → List Effect → List Effect
follow_up [] packets effects = effects
follow_up (key ∷ keys) packets effects = sent (packed (key ∷ keys) packets) ∷ effects

follow_up-some :
    (keys : List Key) (packets : List KeyPacket) (effects : List Effect)
    → length keys ≢ 0
    → follow_up keys packets effects ≡ sent (packed keys packets) ∷ effects
follow_up-some [] packets effects h = absurd (h refl)
follow_up-some (key ∷ keys) packets effects h = refl

taken-IsReady : (c : KeyClient) (t : ℕ) → IsReady c → IsReady (taken c t)
taken-IsReady c t v = ground arith

-- `doPendingSend` of the current source of a consistent client in SENDING, where the socket now takes
-- the pending packets and then the next ones, and no removal is among the keys that are buffered: it
-- returns, the client is connected and its buffer empty, and on the wire are the pending packets and
-- behind them those of all keys that were buffered.
pub do_pending_send-Followed :
    (c : KeyClient) (id : ℕ)
    → IsConsistent c
    → c.pending_send ≡ some id
    → c.state ≡ sending
    → has_removal (to_list c.buffered_keys) ≡ false
    → Returns
        (λ (x : KeyClient × Bool).
          Followed
            (state_changed
              ∷ follow_up
                  (to_list c.buffered_keys)
                  c.packets
                  (sent (take c.tot_packets c.packets) ∷ c.effects))
            x.0)
        (do_pending_send c id false accepted accepted)
unfolding do_pending_send resend is_empty
do_pending_send-Followed c id v current at h = elim (Option-cases c.interval_timeout) [
  | inl missing ↦ absurd (ground (arith, v.ready.timed))
  | inr (t, timer) ↦ elim (Bool-cases (is_empty c.buffered_keys)) [
    | inl nothing ↦
        let none_left : to_list c.buffered_keys ≡ [] =
          to_list-empty c.buffered_keys (ground (arith, nothing)) in
        let outcome : KeyClient × Bool = (
          record (taken c t) { state = connected; effects = state_changed ∷ (taken c t).effects },
          true,
        ) in
        let e : do_pending_send c id false accepted accepted ≡ some outcome =
          ground (arith, nothing) in
        rw e (refl, none_left, rw none_left refl)
    | inr some_key ↦
        let e : do_pending_send c id false accepted accepted
            ≡ (do c'' ← send_packets (taken c t) accepted; some (c'', true)) =
          ground (arith, some_key) in
        let left : length (to_list c.buffered_keys) ≢ 0 =
          ground (arith, length-to_list c.buffered_keys v.ready.buffer) in
        rw e (
          Returns->>=
            (Followed (
              state_changed
              ∷ sent (packed (to_list c.buffered_keys) c.packets)
              ∷ (taken c t).effects))
            (λ (x : KeyClient × Bool).
              Followed
                (state_changed
                  ∷ follow_up (to_list c.buffered_keys) c.packets
                      (sent (take c.tot_packets c.packets) ∷ c.effects))
                x.0)
            (send_packets (taken c t) accepted) (λ c''. some (c'', true))
            (send_packets-Followed (taken c t) (taken-IsReady c t v.ready) at h)
            (λ c'' f. (
              f.0,
              f.1,
              f.2
                  ∙ ap (◌∷◌ state_changed) (
                      sym (
                        follow_up-some (to_list c.buffered_keys) c.packets (taken c t).effects
                          left)),
            )))
  ]
]

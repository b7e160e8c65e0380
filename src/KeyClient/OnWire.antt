-- ===== src/KeyClient/OnWire.antt =====
-- btkeyclient.cc: what a client puts on the wire, as the server reads it.
use stmm_input_bt.Base.{
  ℕ, ◌+◌, ◌≡◌, ◌≢◌, ◌⊎◌, inl, inr, refl, sym, subst, ◌∙◌, Bool, List, [], ◌∷◌, none, some, ℤ, pos,
  take, Returns, Option-cases, dec_lt, ◌>>=◌, arith,
}
use stmm_input_bt.BdAddr.{BdAddr}
use stmm_input_bt.CircularBuffer.{CircularBuffer, capacity, clear, write}
use stmm_input_bt.CircularBuffer.Refine.{IsValid, to_list, write_lem, write-full, clear_lem}
use stmm_input_bt.KeyPacket.{KeyPacket, key_remove_device, key_noop}
use stmm_input_bt.KeyClient.State.{
  State, Key, SendResult, accepted, would_block, refused, Effect, state_changed, error_raised,
  closed, sent, sending_failed, Message, KeyClient, send_buffer_size, init,
}
use stmm_input_bt.KeyClient.Packets.{pack}
use stmm_input_bt.KeyClient.Drain.{packed}
use stmm_input_bt.KeyClient.Connect.{
  ConnectCalls, disconnect_internal, connect_to_server, do_pending_connect, disconnect_from_server,
}
use stmm_input_bt.KeyClient.Send.{
  after_send, send_packets, resend, send_key, send_remove, do_pending_send, do_interval_timeout,
  callback,
}
use stmm_input_bt.KeyClient.Invariant.{IsReady, IsConsistent}
use stmm_input_bt.KeyClient.Batch.{
  with_packets, send_packets_lem, with_buffer, with_buffer-IsReady, push_lem,
}
use stmm_input_bt.KeyClient.Steps.{
  Step, connecting_to, connect_done, key_sent, remove_sent, send_done, time_passed,
  disconnected_from, Reach, start, later, Reach-IsConsistent, unless_none, ticked,
}
use stmm_input_bt.ReceiveSource.{bad_magic, bad_cmd, classify}

-- The server finds no fault with the packet.
abbrev pub IsAccepted : KeyPacket → Type 0
IsAccepted p = (classify p ≢ bad_magic) × (classify p ≢ bad_cmd)

abbrev pub AreAccepted : List KeyPacket → Type 0
AreAccepted [] = Unit
AreAccepted (p ∷ ps) = IsAccepted p × AreAccepted ps

-- So with all packets that a client has sent.
abbrev pub AreSent : List Effect → Type 0
AreSent [] = Unit
AreSent (sent ps ∷ es) = AreAccepted ps × AreSent es
AreSent (state_changed ∷ es) = AreSent es
AreSent (error_raised ∷ es) = AreSent es
AreSent (closed fd ∷ es) = AreSent es

-- Also with those that wait for the socket.
abbrev pub OnWire : KeyClient → Type 0
OnWire c = AreSent c.effects × AreAccepted (take c.tot_packets c.packets)

pack-IsAccepted : (key : Key) (slot : KeyPacket) → IsAccepted (pack key slot)
unfolding pack classify
pack-IsAccepted (type, key) slot = ground arith

packed-AreAccepted : (keys : List Key) (slots : List KeyPacket) → AreAccepted (packed keys slots)
packed-AreAccepted [] slots = tt
packed-AreAccepted (key ∷ keys) [] = tt
packed-AreAccepted (key ∷ keys) (slot ∷ slots) =
    (pack-IsAccepted key slot, packed-AreAccepted keys slots)

-- The client whose pending packets were just accepted.
abbrev resent : KeyClient → ℕ → KeyClient
resent c t = record c {
  last_sent = pos t;
  effects = sent (take c.tot_packets c.packets) ∷ c.effects;
}

disconnect_internal-OnWire :
    (c : KeyClient) (m : Message) → OnWire c → OnWire (disconnect_internal c m)
unfolding disconnect_internal
disconnect_internal-OnWire c m h = ground arith

after_send-OnWire :
    (c : KeyClient) (old new : State) (r : SendResult)
    → OnWire c
    → (after_send c old new r ≡ none) ⊎ Returns OnWire (after_send c old new r)
unfolding after_send
after_send-OnWire c old new r h = ground arith

send_packets-OnWire :
    (c : KeyClient) (r : SendResult)
    → IsReady c
    → AreSent c.effects
    → (send_packets c r ≡ none) ⊎ Returns OnWire (send_packets c r)
send_packets-OnWire c r v h =
    let (b, ps, d, e) = send_packets_lem c r v in
    let built : AreAccepted (take (0 + c.buffered_keys.count) ps) =
      subst AreAccepted (sym d.built) (packed-AreAccepted (to_list c.buffered_keys) c.packets) in
    rw e
      (after_send-OnWire (with_packets c b ps (0 + c.buffered_keys.count)) c.state _ r (h, built))

send_key-OnWire :
    (c : KeyClient) (key : Key) (r : SendResult)
    → IsConsistent c
    → OnWire c
    → (send_key c key r ≡ none) ⊎ Returns OnWire (send_key c key r)
unfolding send_key
send_key-OnWire c key r v h =
    let (room, b', made, put, valid, cap, filled, content) =
      push_lem c.buffered_keys key v.ready.buffer (omega (arith, v.ready.room)) in
    ground
      (arith, made, put, with_buffer-IsReady c b' v.ready, send_packets-OnWire (with_buffer c b') r)

pushed-OnWire :
    (c : KeyClient) (b : CircularBuffer Key) (key : Key) (r : SendResult)
    → IsReady c
    → AreSent c.effects
    → IsValid b
    → capacity b ≡ send_buffer_size
    → ((write b key >>= λ b'. send_packets (with_buffer c b') r) ≡ none)
      ⊎ Returns OnWire (write b key >>= λ b'. send_packets (with_buffer c b') r)
pushed-OnWire c b key r v h valid cap = elim (dec_lt b.count (capacity b)) [
  | no full ↦
      inl (let e : b.count ≡ capacity b = omega (arith, valid.fits) in rw (write-full b key e) refl)
  | yes room ↦
      let (b', put, valid', tail, cap', count) = write_lem b key valid room in
      rw put (
        send_packets-OnWire (with_buffer c b') r (with_buffer-IsReady c b' v valid' (cap' ∙ cap)) h)
]

send_remove-OnWire :
    (c : KeyClient) (r : SendResult)
    → IsConsistent c
    → OnWire c
    → (send_remove c r ≡ none) ⊎ Returns OnWire (send_remove c r)
unfolding send_remove
send_remove-OnWire c r v h =
    let (vb, nothing, cap) = clear_lem c.buffered_keys v.ready.buffer in
    ground (
      arith,
      pushed-OnWire c (clear c.buffered_keys) (key_remove_device, 0) r v.ready h.0 vb
          (cap ∙ v.ready.room),
      pushed-OnWire c c.buffered_keys (key_remove_device, 0) r v.ready h.0 v.ready.buffer
          v.ready.room,
    )

do_interval_timeout-OnWire :
    (c : KeyClient) (r : SendResult)
    → IsConsistent c
    → OnWire c
    → (do_interval_timeout c r ≡ none) ⊎ Returns OnWire (do_interval_timeout c r)
unfolding do_interval_timeout disconnect_internal
do_interval_timeout-OnWire c r v h =
    ground (
      arith,
      pushed-OnWire c c.buffered_keys (key_noop, 0) r v.ready h.0 v.ready.buffer v.ready.room,
    )

resend-OnWire :
    (c : KeyClient) (r again : SendResult)
    → IsConsistent c
    → OnWire c
    → (resend c r again ≡ none) ⊎ Returns (λ x. OnWire x.0) (resend c r again)
unfolding resend
resend-OnWire c would_block again v h = inr (disconnect_internal-OnWire c _ h)
resend-OnWire c (refused n) again v h = inr (disconnect_internal-OnWire c _ h)
resend-OnWire c accepted again v h = elim (Option-cases c.interval_timeout) [
  | inl missing ↦ ground arith
  | inr (t, timer) ↦ ground (arith, send_packets-OnWire (resent c t) again)
]

do_pending_send-OnWire :
    (c : KeyClient) (id : ℕ) (error : Bool) (r again : SendResult)
    → IsConsistent c
    → OnWire c
    → (do_pending_send c id error r again ≡ none)
      ⊎ Returns (λ x. OnWire x.0) (do_pending_send c id error r again)
unfolding do_pending_send
do_pending_send-OnWire c id error r again v h =
    ground (arith, resend-OnWire c r again v h, disconnect_internal-OnWire c sending_failed h)

connect_to_server-OnWire :
    (c : KeyClient) (addr : BdAddr) (port : ℤ) (sys : ConnectCalls)
    → OnWire c
    → (connect_to_server c addr port sys ≡ none)
      ⊎ Returns OnWire (connect_to_server c addr port sys)
unfolding connect_to_server
connect_to_server-OnWire c addr port sys h = ground arith

do_pending_connect-OnWire :
    (c : KeyClient) (id : ℕ) (error : Bool)
    → OnWire c
    → (do_pending_connect c id error ≡ none)
      ⊎ Returns (λ x. OnWire x.0) (do_pending_connect c id error)
unfolding do_pending_connect
do_pending_connect-OnWire c id error h = ground arith

disconnect_from_server-OnWire : (c : KeyClient) → OnWire c → OnWire (disconnect_from_server c)
unfolding disconnect_from_server disconnect_internal
disconnect_from_server-OnWire c h = ground arith

callback-OnWire :
    (c c' : KeyClient) (r : SendResult)
    → IsConsistent c
    → OnWire c
    → callback c r ≡ some c'
    → OnWire c'
unfolding callback ticked
callback-OnWire c c' r v h e = elim (Option-cases c.interval_timeout) [
  | inl missing ↦ absurd (ground arith)
  | inr (t, timer) ↦
      unless_none OnWire (do_interval_timeout (ticked c t) r) c'
        (do_interval_timeout-OnWire (ticked c t) r (ground arith) h) (ground arith)
]

Step-OnWire : (c c' : KeyClient) → Step c c' → IsConsistent c → OnWire c → OnWire c'
Step-OnWire c c' (connecting_to _ _ addr port sys slow e) v h =
    unless_none OnWire _ c' (connect_to_server-OnWire c addr port sys h) e
Step-OnWire c c' (connect_done _ _ id error continue e) v h =
    unless_none (λ x. OnWire x.0) _ (c', continue) (do_pending_connect-OnWire c id error h) e
Step-OnWire c c' (key_sent _ _ key r e) v h =
    unless_none OnWire _ c' (send_key-OnWire c key r v h) e
Step-OnWire c c' (remove_sent _ _ r e) v h = unless_none OnWire _ c' (send_remove-OnWire c r v h) e
Step-OnWire c c' (send_done _ _ id error r again continue e) v h =
    unless_none (λ x. OnWire x.0) _ (c', continue) (do_pending_send-OnWire c id error r again v h) e
Step-OnWire c c' (time_passed _ _ r e) v h = callback-OnWire c c' r v h e
Step-OnWire c _ (disconnected_from _) v h = disconnect_from_server-OnWire c h

init-OnWire :
    (tc ts i n : ℕ) (packets : List KeyPacket) (addr : BdAddr) (key : Key) (id : ℕ)
    → (init tc ts i n packets addr key id ≡ none)
      ⊎ Returns OnWire (init tc ts i n packets addr key id)
unfolding init
init-OnWire tc ts i n packets addr key id = ground arith

-- In every client that is reached, by any events in any order but a connection that is done at once,
-- the packets that were sent so far and those that wait for the socket are such that the server finds
-- no fault with them: their magic numbers are right, and their command is known.
pub Reach-OnWire : (c : KeyClient) → Reach c → OnWire c
Reach-OnWire c (start tc ts i n packets addr key id _ room e) =
    unless_none OnWire _ c (init-OnWire tc ts i n packets addr key id) e
Reach-OnWire c (later before _ r step) =
    Step-OnWire before c step (Reach-IsConsistent before r) (Reach-OnWire before r)

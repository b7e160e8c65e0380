-- ===== src/KeyClient/Delivery.antt =====
-- btkeyclient.cc: what a call of `sendKeyToServer` or `sendRemoveToServer` puts on the wire.
use stmm_input_bt.Base.{
  ◌+◌, ◌≡◌, refl, Bool, false, ◌||◌, List, [], ◌∷◌, ◌++◌, some, arith, Returns, ap, ◌∙◌,
}
use stmm_input_bt.CircularBuffer.{CircularBuffer, write}
use stmm_input_bt.CircularBuffer.Refine.{to_list, to_list-empty}
use stmm_input_bt.KeyPacket.{KeyPacket, key_remove_device, same_type}
use stmm_input_bt.KeyClient.State.{
  connected, sending, Key, SendResult, accepted, sent, KeyClient, send_buffer_size,
}
use stmm_input_bt.KeyClient.Packets.{next_state}
use stmm_input_bt.KeyClient.Drain.{packed, last_state, Drained}
use stmm_input_bt.KeyClient.Send.{after_send, make_room, send_packets, send_key}
use stmm_input_bt.KeyClient.Invariant.{IsReady, IsConsistent}
use stmm_input_bt.KeyClient.Batch.{
  with_packets, with_buffer, with_buffer-IsReady, send_packets_lem, newest, push_lem,
}

-- Whether the request to remove the device is among the keys.
unfoldable pub has_removal : List Key → Bool
has_removal [] = false
has_removal ((type, key) ∷ keys) = same_type type key_remove_device || has_removal keys

pub last_state-sending :
    (keys : List Key) → has_removal keys ≡ false → last_state keys sending ≡ sending
unfolding has_removal next_state
last_state-sending [] h = refl
last_state-sending ((type, key) ∷ keys) h = ground (arith, last_state-sending keys)

-- The client after the packets of `keys` were accepted.
abbrev pub Delivered : KeyClient → List Key → KeyClient → Type 0
Delivered c keys c' =
    (c'.state ≡ connected)
    × (to_list c'.buffered_keys ≡ [])
    × (c'.effects ≡ sent (packed keys c.packets) ∷ c.effects)

after_send-Delivered :
    (c : KeyClient) (b : CircularBuffer Key) (ps : List KeyPacket)
    → IsReady c
    → c.state ≡ connected
    → has_removal (to_list c.buffered_keys) ≡ false
    → Drained c.buffered_keys c.packets 0 b ps
    → Returns (Delivered c (to_list c.buffered_keys)) (
        after_send
          (with_packets c b ps (0 + c.buffered_keys.count))
          c.state
          (last_state (to_list c.buffered_keys) sending)
          accepted)
unfolding after_send
after_send-Delivered c b ps v at h d =
    rw (last_state-sending (to_list c.buffered_keys) h)
      (ground (arith, d.built, to_list-empty b d.emptied))

send_packets-Delivered :
    (c : KeyClient)
    → IsReady c
    → c.state ≡ connected
    → has_removal (to_list c.buffered_keys) ≡ false
    → Returns (Delivered c (to_list c.buffered_keys)) (send_packets c accepted)
send_packets-Delivered c v at h =
    let (b, ps, d, e) = send_packets_lem c accepted v in rw e (after_send-Delivered c b ps v at h d)

-- The keys that a call of `sendKeyToServer` leaves to be sent: the new one behind those that are
-- buffered, without the oldest if the buffer was full.
abbrev pub queued : KeyClient → Key → List Key
queued c key = newest (to_list c.buffered_keys) send_buffer_size ++ (key ∷ [])

send_key-connected :
    (c : KeyClient) (key : Key) (r : SendResult) (room b' : CircularBuffer Key)
    → c.state ≡ connected
    → make_room c.buffered_keys ≡ some room
    → write room key ≡ some b'
    → send_key c key r ≡ send_packets (with_buffer c b') r
unfolding send_key
send_key-connected c key r room b' at made put = ground arith

-- A key that a connected client sends, where the socket takes it and no removal is among the keys to
-- be sent: the call returns, one message with the packets of these keys, in order and from the
-- array's start, is on the wire, the buffer is empty and the client connected.
pub send_key-Delivered :
    (c : KeyClient) (key : Key)
    → IsConsistent c
    → c.state ≡ connected
    → has_removal (queued c key) ≡ false
    → Returns (Delivered c (queued c key)) (send_key c key accepted)
send_key-Delivered c key v at h =
    let (room, b', made, put, valid, cap, filled, content) =
      push_lem c.buffered_keys key v.ready.buffer (omega (arith, v.ready.room)) in
    let e : to_list b' ≡ queued c key =
      content ∙ ap (λ n. newest (to_list c.buffered_keys) n ++ (key ∷ [])) v.ready.room in
    let sent_keys : Returns (Delivered (with_buffer c b') (to_list b'))
        (send_packets (with_buffer c b') accepted) =
      send_packets-Delivered (with_buffer c b')
        (with_buffer-IsReady c b' v.ready valid (cap ∙ v.ready.room)) at (ap has_removal e ∙ h) in
    rw (send_key-connected c key accepted room b' at made put) (rw e at sent_keys)

-- A key that comes while a batch is pending: the call returns, the key stands behind those that are
-- buffered (without the oldest of a full buffer), nothing is sent and the state stays.
pub send_key-buffered :
    (c : KeyClient) (key : Key) (r : SendResult)
    → IsConsistent c
    → c.state ≡ sending
    → Returns
        (λ c'.
          (to_list c'.buffered_keys ≡ queued c key)
          × (c'.state ≡ sending)
          × (c'.effects ≡ c.effects))
        (send_key c key r)
unfolding send_key
send_key-buffered c key r v at =
    let (room, b', made, put, valid, cap, filled, content) =
      push_lem c.buffered_keys key v.ready.buffer (omega (arith, v.ready.room)) in
    let e : to_list b' ≡ queued c key =
      content ∙ ap (λ n. newest (to_list c.buffered_keys) n ++ (key ∷ [])) v.ready.room in
    rw (at, made, put) (e, refl, refl)

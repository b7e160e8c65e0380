-- ===== src/KeyClient/Batch.antt =====
-- btkeyclient.cc, `sendPacketsFromBufferedKeys`: it returns and keeps the invariant. And a key that is
-- put into the buffer.
use stmm_input_bt.Base.{
  ℕ, ◌+◌, ◌<◌, ◌≡◌, ◌≢◌, ◌⊎◌, inl, refl, Bool, true, not, ◌||◌, List, some, length, arith, Returns,
  ◌==◌, if◌then◌else◌, drop, ap, sym, ◌∙◌, ◌++◌, ◌∷◌, [], ℕ_discrete,
}
use stmm_input_bt.CircularBuffer.{CircularBuffer, capacity, is_full, write}
use stmm_input_bt.CircularBuffer.Refine.{IsValid, to_list, length-to_list, read_lem, write_lem}
use stmm_input_bt.KeyPacket.{KeyPacket}
use stmm_input_bt.KeyClient.State.{
  State, disconnected, connecting, sending, removing, same, Key, SendResult, KeyClient,
  send_buffer_size,
}
use stmm_input_bt.KeyClient.Packets.{next_state}
use stmm_input_bt.KeyClient.Drain.{drain_lem, Drained, last_state}
use stmm_input_bt.KeyClient.Send.{after_send, send_packets, make_room}
use stmm_input_bt.KeyClient.Invariant.{IsReady, IsConsistent}

-- The states in which packets are sent.
abbrev pub is_linked : State → Bool
is_linked state = not (same state disconnected || same state connecting)

-- The loop's new state is SENDING or REMOVING.
last_state_cases :
    (keys : List Key) (state : State)
    → (state ≡ sending) ⊎ (state ≡ removing)
    → (last_state keys state ≡ sending) ⊎ (last_state keys state ≡ removing)
unfolding next_state
last_state_cases [] state h = h
last_state_cases (key ∷ keys) state h = last_state_cases keys _ (ground arith)

after_send-IsConsistent :
    (c : KeyClient) (old new : State) (r : SendResult)
    → IsReady c
    → c.buffered_keys.count ≡ 0
    → is_linked c.state ≡ true
    → (new ≡ sending) ⊎ (new ≡ removing)
    → Returns IsConsistent (after_send c old new r)
unfolding after_send
after_send-IsConsistent c old new r v empty linked h = ground arith

-- The client after the loop.
abbrev pub with_packets : KeyClient → CircularBuffer Key → List KeyPacket → ℕ → KeyClient
with_packets c buffer packets tot = record c {
  buffered_keys = buffer;
  packets = packets;
  tot_packets = tot;
}

with_packets-IsReady :
    (c : KeyClient) (b : CircularBuffer Key) (ps : List KeyPacket) (n : ℕ)
    → IsReady c
    → Drained c.buffered_keys c.packets 0 b ps
    → IsReady (with_packets c b ps n)
with_packets-IsReady c b ps n v d = ground arith

-- The loop never stops the program, and what follows it is `after_send`.
pub send_packets_lem :
    (c : KeyClient) (r : SendResult)
    → IsReady c
    → (b : CircularBuffer Key) × (ps : List KeyPacket) × Drained c.buffered_keys c.packets 0 b ps
      × (send_packets c r
          ≡ after_send
              (with_packets c b ps (0 + c.buffered_keys.count))
              c.state
              (last_state (to_list c.buffered_keys) sending)
              r)
unfolding send_packets
send_packets_lem c r v =
    let (b, ps, e, d) =
      drain_lem c.buffered_keys.count c.buffered_keys c.packets 0 sending v.buffer (omega arith)
        (omega (arith, v.buffer.fits, v.room, v.slots)) in
    (b, ps, d, rw e)

pub send_packets-IsConsistent :
    (c : KeyClient) (r : SendResult)
    → IsReady c
    → is_linked c.state ≡ true
    → Returns IsConsistent (send_packets c r)
send_packets-IsConsistent c r v linked =
    let (b, ps, d, e) = send_packets_lem c r v in
    rw e (
      after_send-IsConsistent (with_packets c b ps (0 + c.buffered_keys.count)) c.state _ r
        (with_packets-IsReady c b ps _ v d) d.emptied linked
        (last_state_cases (to_list c.buffered_keys) sending (inl refl)))

-- The client with another buffer.
abbrev pub with_buffer : KeyClient → CircularBuffer Key → KeyClient
with_buffer c buffer = record c { buffered_keys = buffer }

pub with_buffer-IsReady :
    (c : KeyClient) (b : CircularBuffer Key)
    → IsReady c
    → IsValid b
    → capacity b ≡ send_buffer_size
    → IsReady (with_buffer c b)
with_buffer-IsReady c b v w e = ground arith

-- What is kept of the buffered keys when one more comes.
abbrev pub newest : List Key → ℕ → List Key
newest keys capacity = if length keys == capacity then drop 1 keys else keys

newest-full :
    (keys rest : List Key) (key : Key) (n : ℕ)
    → keys ≡ key ∷ rest
    → length keys ≡ n
    → newest keys n ≡ rest
newest-full keys rest key n e h = ground arith

newest-room : (keys : List Key) (n : ℕ) → length keys ≢ n → newest keys n ≡ keys
newest-room keys n h = ground arith

-- Room for a key, and the key after the others: the oldest is forgotten if the buffer was full.
pub push_lem :
    (b : CircularBuffer Key) (key : Key)
    → IsValid b
    → 0 < capacity b
    → (room b' : CircularBuffer Key) × (make_room b ≡ some room)
      × (write room key ≡ some b')
      × IsValid b'
      × (capacity b' ≡ capacity b)
      × (0 < b'.count)
      × (to_list b' ≡ newest (to_list b) (capacity b) ++ (key ∷ []))
unfolding make_room is_full
push_lem b key v h = elim (ℕ_discrete b.count (capacity b)) [
  | yes full ↦
      let (x, room, got, v1, head, cap, count) = read_lem b v (omega arith) in
      let (b', put, v2, tail, cap', count') = write_lem room key v1 (omega arith) in
      (
        room,
        b',
        ground arith,
        put,
        v2,
        cap' ∙ cap,
        omega arith,
        tail
            ∙ ap (λ keys. keys ++ (key ∷ []))
                (sym (newest-full (to_list b) _ x (capacity b) head (length-to_list b v ∙ full))),
      )
  | no more ↦
      let (b', put, v2, tail, cap', count') = write_lem b key v (omega (arith, v.fits)) in
      (
        b,
        b',
        ground arith,
        put,
        v2,
        cap',
        omega arith,
        tail
            ∙ ap (λ keys. keys ++ (key ∷ []))
                (sym
                  (newest-room (to_list b) (capacity b) (omega (arith, length-to_list b v, more)))),
      )
]

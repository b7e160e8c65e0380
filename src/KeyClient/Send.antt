-- ===== src/KeyClient/Send.antt =====
-- btkeyclient.cc: sending keys, the callback of a pending send, and the interval timeout.
use stmm_input_bt.Base.{
  ℕ, ◌+◌, ◌*◌, max, Bool, true, false, not, ◌&&◌, ◌||◌, ◌^◌, ◌∷◌, Option, none, some, pos, pos_part,
  neg_part, ltb, ◌==◌, if◌then◌else◌, ◌>>=◌, ◌>>◌, assert, take,
}
use stmm_input_bt.CircularBuffer.{CircularBuffer, is_empty, is_full, clear, read, write}
use stmm_input_bt.KeyPacket.{key_remove_device, key_noop}
use stmm_input_bt.KeyClient.State.{
  State, disconnected, connecting, connected, sending, same, Key, SendResult, accepted, would_block,
  refused, no_error, connecting_timed_out, sending_failed, sending_timed_out, packet_failed,
  send_failed, state_changed, error_raised, sent, KeyClient,
}
use stmm_input_bt.KeyClient.Packets.{drain}
use stmm_input_bt.KeyClient.Connect.{disconnect_internal}

-- `if (!m_refPendingSend) { ... }`
attach_pending_send : KeyClient → KeyClient
attach_pending_send c = elim c.pending_send [
  | none ↦ record c { pending_send = some c.next_source_id; next_source_id = c.next_source_id + 1 }
  | some _ ↦ c
]

-- What follows the send: the old state, the new one, and the result of `::send`.
unfoldable pub after_send : KeyClient → State → State → SendResult → Option KeyClient
unfolding disconnect_internal attach_pending_send
after_send c old new would_block = do
  t ← c.interval_timeout
  let c' = attach_pending_send c
  some (record c' {
    started_sending = t;
    state = new;
    effects = if same old new then c.effects else state_changed ∷ c.effects;
  })
after_send c old new (refused n) = some (disconnect_internal c (send_failed (refused n)))
after_send c old new accepted = do
  t ← c.interval_timeout
  let c' = record c {
    last_sent = pos t;
    last_error = no_error;
    effects = sent (take c.tot_packets c.packets) ∷ c.effects;
  }
  if same new sending
      then some (record c' {
        state = connected;
        effects = if same old connected then c'.effects else state_changed ∷ c'.effects;
      })
      else some (disconnect_internal c' no_error)

-- `sendPacketsFromBufferedKeys`
unfoldable pub send_packets : KeyClient → SendResult → Option KeyClient
send_packets c result = do
  (buffer, packets, tot, new) ← drain c.buffered_keys.count c.buffered_keys c.packets 0 sending
  after_send (record c { buffered_keys = buffer; packets = packets; tot_packets = tot }) c.state new
      result

-- The part of `doPendingSend` behind its guards; `again` is the result of the second send.
unfoldable pub resend : KeyClient → SendResult → SendResult → Option (KeyClient × Bool)
unfolding disconnect_internal
resend c accepted again = do
  t ← c.interval_timeout
  let c' = record c { last_sent = pos t; effects = sent (take c.tot_packets c.packets) ∷ c.effects }
  if not (is_empty c.buffered_keys)
      then (do c'' ← send_packets c' again; some (c'', true))
      else some (record c' { state = connected; effects = state_changed ∷ c'.effects }, true)
resend c would_block again = some (disconnect_internal c (packet_failed would_block), false)
resend c (refused n) again = some (disconnect_internal c (packet_failed (refused n)), false)

-- `doPendingSend`, with the returned `bContinue`.
unfoldable pub do_pending_send :
    KeyClient → ℕ → Bool → SendResult → SendResult → Option (KeyClient × Bool)
unfolding resend
do_pending_send c source_id error result again = elim c.pending_send [
  | none ↦ some (c, false)
  | some current ↦ if not (source_id == current) then some (c, false) else do
    assert (same c.state sending)
    if error then some (disconnect_internal c sending_failed, false) else resend c result again
]

-- `if (isFull()) { read(); }`: the oldest key is forgotten.
unfoldable pub make_room : CircularBuffer Key → Option (CircularBuffer Key)
make_room buffer =
    let shorter = (do (oldest, rest) ← read buffer; some rest) in
    if is_full buffer then shorter else some buffer

-- `sendKeyToServer`
unfoldable pub send_key : KeyClient → Key → SendResult → Option KeyClient
send_key c key result =
    if same c.state sending
    then (do
      room ← make_room c.buffered_keys
      buffer ← write room key
      some (record c { buffered_keys = buffer }))
    else if same c.state connected
    then (do
      room ← make_room c.buffered_keys
      buffer ← write room key
      send_packets (record c { buffered_keys = buffer }) result)
    else some c

-- `sendRemoveToServer`
unfoldable pub send_remove : KeyClient → SendResult → Option KeyClient
send_remove c result =
    if same c.state connecting then some c else if same c.state disconnected then some c else do
      buffer ←
          write (if same c.state sending then clear c.buffered_keys else c.buffered_keys)
            (key_remove_device, 0)
      send_packets (record c { buffered_keys = buffer }) result

-- The product `m_nTimeoutSend * 2` is of type `int32_t`; where it does not fit, it is undefined.
abbrev pub noop_fits : KeyClient → Bool
noop_fits c = c.noop_after == 0 || ltb (c.timeout_send * 2) (2 ^ 31)

-- `nElapsed - m_nLastSentTime > std::max(m_nNoopAfter, m_nTimeoutSend * 2)` on 64-bit integers.
abbrev pub noop_due : KeyClient → ℕ → Bool
noop_due c t =
    ltb 0 c.noop_after
    && ltb (pos_part c.last_sent + max c.noop_after (c.timeout_send * 2)) (t + neg_part c.last_sent)

-- `doIntervalTimeout`, which always returns true.
unfoldable pub do_interval_timeout : KeyClient → SendResult → Option KeyClient
do_interval_timeout c result = do
  t ← c.interval_timeout
  let noop = (do
    assert (noop_fits c)
    if noop_due c t
        then (do
          assert (is_empty c.buffered_keys)
          buffer ← write c.buffered_keys (key_noop, 0)
          send_packets (record c { buffered_keys = buffer }) result)
        else some c)
  if same c.state connecting
      then some (
          if ltb (c.started_connecting + c.timeout_connect) t
          then disconnect_internal c connecting_timed_out
          else c)
      else if same c.state connected
      then noop
      else if same c.state sending
      then some (
          if ltb (c.started_sending + c.timeout_send) t
          then record c {
            last_error = sending_timed_out;
            state = connected;
            effects = state_changed ∷ error_raised ∷ c.effects;
          }
          else c)
      else some c

-- `IntervalTimeoutSource::callback`, which calls `doIntervalTimeout`.
unfoldable pub callback : KeyClient → SendResult → Option KeyClient
callback c result = do
  t ← c.interval_timeout
  do_interval_timeout (record c { interval_timeout = some (t + c.interval) }) result

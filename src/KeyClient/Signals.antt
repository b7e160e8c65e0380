-- ===== src/KeyClient/Signals.antt =====
-- btkeyclient.cc: the signal of a changed state.
use stmm_input_bt.Base.{
  ℕ, ◌≡◌, inl, inr, refl, ◌⊎◌, ◌+◌, Bool, List, [], ◌∷◌, Option, none, some, ℤ, arith, Returns,
  Option-cases, ◌>>=◌, if◌then◌else◌, pos, take,
}
use stmm_input_bt.BdAddr.{BdAddr}
use stmm_input_bt.CircularBuffer.{CircularBuffer, clear, write}
use stmm_input_bt.KeyPacket.{key_remove_device, key_noop}
use stmm_input_bt.KeyClient.State.{
  State, sending, same, Key, SendResult, Effect, state_changed, error_raised, closed, sent,
  KeyClient, Message, no_error,
}
use stmm_input_bt.KeyClient.Packets.{drain}
use stmm_input_bt.KeyClient.Connect.{
  ConnectCalls, disconnect_internal, open_connection, connect_to_server, do_pending_connect,
  disconnect_from_server,
}
use stmm_input_bt.KeyClient.Send.{
  after_send, send_packets, resend, make_room, send_key, send_remove, do_pending_send,
  do_interval_timeout, callback,
}
use stmm_input_bt.KeyClient.Steps.{
  Step, connecting_to, connect_done, key_sent, remove_sent, send_done, time_passed,
  disconnected_from, unless_none, ticked,
}

-- How often the state was signaled.
unfoldable pub state_signals : List Effect → ℕ
state_signals [] = 0
state_signals (state_changed ∷ es) = state_signals es + 1
state_signals (error_raised ∷ es) = state_signals es
state_signals (closed fd ∷ es) = state_signals es
state_signals (sent ps ∷ es) = state_signals es

-- Of a client that had this state after so many signals: it has it still and gave no signal since, or it gave
-- one.
abbrev pub HasSignaled : State → ℕ → KeyClient → Type 0
HasSignaled s n c =
    ((c.state ≡ s) × (state_signals c.effects ≡ n)) ⊎ (state_signals c.effects ≡ n + 1)

disconnect_internal-HasSignaled :
    (c : KeyClient) (m : Message)
    → HasSignaled c.state (state_signals c.effects) (disconnect_internal c m)
unfolding disconnect_internal state_signals
disconnect_internal-HasSignaled c m = ground arith

after_send-HasSignaled :
    (c : KeyClient) (new : State) (r : SendResult)
    → (after_send c c.state new r ≡ none)
      ⊎ Returns (HasSignaled c.state (state_signals c.effects)) (after_send c c.state new r)
unfolding after_send state_signals
after_send-HasSignaled c new r = ground arith

send_packets-HasSignaled :
    (c : KeyClient) (r : SendResult)
    → (send_packets c r ≡ none)
      ⊎ Returns (HasSignaled c.state (state_signals c.effects)) (send_packets c r)
unfolding send_packets
send_packets-HasSignaled c r =
    elim (Option-cases (drain c.buffered_keys.count c.buffered_keys c.packets 0 sending)) [
      | inl e ↦ rw e (inl refl)
      | inr ((b, ps, tot, new), e) ↦ rw e (
          after_send-HasSignaled (record c { buffered_keys = b; packets = ps; tot_packets = tot })
            new r)
    ]

-- The client before and after a call that may stop the program.
abbrev Signals : KeyClient → Option KeyClient → Type 0
Signals c m = (m ≡ none) ⊎ Returns (HasSignaled c.state (state_signals c.effects)) m

buffered-HasSignaled :
    (c : KeyClient) (m : Option (CircularBuffer Key)) (r : SendResult)
    → Signals c (m >>= (λ b. send_packets (record c { buffered_keys = b }) r))
buffered-HasSignaled c none r = inl refl
buffered-HasSignaled c (some b) r = send_packets-HasSignaled (record c { buffered_keys = b }) r

send_key-HasSignaled : (c : KeyClient) (key : Key) (r : SendResult) → Signals c (send_key c key r)
unfolding send_key
send_key-HasSignaled c key r = elim (Option-cases (make_room c.buffered_keys)) [
  | inl e ↦ ground (arith, e)
  | inr (room, e) ↦ ground (arith, e, buffered-HasSignaled c (write room key) r)
]

send_remove-HasSignaled : (c : KeyClient) (r : SendResult) → Signals c (send_remove c r)
unfolding send_remove
send_remove-HasSignaled c r =
    let buffer : CircularBuffer Key =
      if same c.state sending then clear c.buffered_keys else c.buffered_keys in
    ground (arith, buffered-HasSignaled c (write buffer (key_remove_device, 0)) r)

do_interval_timeout-HasSignaled :
    (c : KeyClient) (r : SendResult) → Signals c (do_interval_timeout c r)
unfolding do_interval_timeout state_signals disconnect_internal
do_interval_timeout-HasSignaled c r =
    ground (arith, buffered-HasSignaled c (write c.buffered_keys (key_noop, 0)) r)

-- The client whose pending packets were just accepted.
abbrev resent : KeyClient → ℕ → KeyClient
resent c t = record c {
  last_sent = pos t;
  effects = sent (take c.tot_packets c.packets) ∷ c.effects;
}

do_pending_send-HasSignaled :
    (c : KeyClient) (id : ℕ) (error : Bool) (r again : SendResult)
    → (do_pending_send c id error r again ≡ none)
      ⊎ Returns
          (λ x. HasSignaled c.state (state_signals c.effects) x.0)
          (do_pending_send c id error r again)
unfolding do_pending_send resend state_signals disconnect_internal
do_pending_send-HasSignaled c id error r again = elim (Option-cases c.interval_timeout) [
  | inl e ↦ ground (arith, e)
  | inr (t, e) ↦ ground (arith, e, send_packets-HasSignaled (resent c t) again)
]

do_pending_connect-HasSignaled :
    (c : KeyClient) (id : ℕ) (error : Bool)
    → (do_pending_connect c id error ≡ none)
      ⊎ Returns
          (λ x. HasSignaled c.state (state_signals c.effects) x.0)
          (do_pending_connect c id error)
unfolding do_pending_connect state_signals disconnect_internal
do_pending_connect-HasSignaled c id error = ground arith

connect_to_server-HasSignaled :
    (c : KeyClient) (addr : BdAddr) (port : ℤ) (sys : ConnectCalls)
    → Signals c (connect_to_server c addr port sys)
unfolding connect_to_server open_connection state_signals
connect_to_server-HasSignaled c addr port sys = ground arith

callback-HasSignaled : (c : KeyClient) (r : SendResult) → Signals c (callback c r)
unfolding callback ticked
callback-HasSignaled c r = elim (Option-cases c.interval_timeout) [
  | inl e ↦ ground (arith, e)
  | inr (t, e) ↦ rw e (do_interval_timeout-HasSignaled (ticked c t) r)
]

-- Each event gives at most one signal of a changed state, and whenever it changes the state it gives one.
pub Step-HasSignaled :
    (c c' : KeyClient) → Step c c' → HasSignaled c.state (state_signals c.effects) c'
unfolding disconnect_from_server
Step-HasSignaled c c' (connecting_to _ _ addr port sys slow e) =
    unless_none _ _ c' (connect_to_server-HasSignaled c addr port sys) e
Step-HasSignaled c c' (connect_done _ _ id error continue e) =
    unless_none (λ x. HasSignaled c.state (state_signals c.effects) x.0) _ (c', continue)
      (do_pending_connect-HasSignaled c id error) e
Step-HasSignaled c c' (key_sent _ _ key r e) = unless_none _ _ c' (send_key-HasSignaled c key r) e
Step-HasSignaled c c' (remove_sent _ _ r e) = unless_none _ _ c' (send_remove-HasSignaled c r) e
Step-HasSignaled c c' (send_done _ _ id error r again continue e) =
    unless_none (λ x. HasSignaled c.state (state_signals c.effects) x.0) _ (c', continue)
      (do_pending_send-HasSignaled c id error r again) e
Step-HasSignaled c c' (time_passed _ _ r e) = unless_none _ _ c' (callback-HasSignaled c r) e
Step-HasSignaled c _ (disconnected_from _) =
    ground (arith, disconnect_internal-HasSignaled c no_error)

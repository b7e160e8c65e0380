-- ===== src/KeyClient/Steps.antt =====
-- btkeyclient.cc: the events that a client meets, from its construction on, and the states that it
-- reaches.
use stmm_input_bt.Base.{
  ℕ, ◌≡◌, ◌≢◌, inl, inr, refl, subst, ap, ◌⊎◌, ◌+◌, Bool, List, Option, none, some, ℤ, length,
  arith, Returns, Option-cases,
}
use stmm_input_bt.BdAddr.{BdAddr}
use stmm_input_bt.KeyPacket.{KeyPacket}
use stmm_input_bt.CircularBuffer.Refine.{create_lem, length-to_list}
use stmm_input_bt.KeyClient.State.{done, Key, SendResult, KeyClient, send_buffer_size, init}
use stmm_input_bt.KeyClient.Connect.{
  ConnectCalls, connect_to_server, do_pending_connect, disconnect_from_server,
}
use stmm_input_bt.KeyClient.Send.{
  send_key, send_remove, do_pending_send, do_interval_timeout, callback,
}
use stmm_input_bt.KeyClient.Invariant.{
  IsConsistent, connect_to_server-IsConsistent, do_pending_connect-IsConsistent,
  disconnect_from_server-IsConsistent,
}
use stmm_input_bt.KeyClient.SendSafety.{send_key-IsConsistent}
use stmm_input_bt.KeyClient.Stops.{send_remove_lem, do_interval_timeout_lem, do_pending_send_lem}

-- One event: a call by the window, or one by a source of the main loop, that returns.
pub data Step : KeyClient → KeyClient → Type 0 where
  connecting_to :
      (c c' : KeyClient) (addr : BdAddr) (port : ℤ) (sys : ConnectCalls)
      → sys.connect ≢ done
      → connect_to_server c addr port sys ≡ some c'
      → Step c c'
  connect_done :
      (c c' : KeyClient) (id : ℕ) (error continue : Bool)
      → do_pending_connect c id error ≡ some (c', continue)
      → Step c c'
  key_sent :
      (c c' : KeyClient) (key : Key) (r : SendResult) → send_key c key r ≡ some c' → Step c c'
  remove_sent : (c c' : KeyClient) (r : SendResult) → send_remove c r ≡ some c' → Step c c'
  send_done :
      (c c' : KeyClient) (id : ℕ) (error : Bool) (r again : SendResult) (continue : Bool)
      → do_pending_send c id error r again ≡ some (c', continue)
      → Step c c'
  time_passed : (c c' : KeyClient) (r : SendResult) → callback c r ≡ some c' → Step c c'
  disconnected_from : (c : KeyClient) → Step c (disconnect_from_server c)

-- The clients that are reached from the construction.
pub data Reach : KeyClient → Type 0 where
  start :
      (timeout_connect timeout_send interval noop_after : ℕ) (packets : List KeyPacket)
      (addr : BdAddr) (key : Key) (source_id : ℕ) (c : KeyClient)
      → length packets ≡ send_buffer_size
      → init timeout_connect timeout_send interval noop_after packets addr key source_id ≡ some c
      → Reach c
  later : (c c' : KeyClient) → Reach c → Step c c' → Reach c'

-- What a computation that returns ends in.
Returns-at : {A : Type 0} (P : A → Type 0) (m : Option A) (a : A) → Returns P m → m ≡ some a → P a
Returns-at P m a h e = subst (Returns P) e h

-- What holds of a computation's end, if it returns.
pub unless_none :
    {A : Type 0} (P : A → Type 0) (m : Option A) (a : A)
    → (m ≡ none) ⊎ Returns P m
    → m ≡ some a
    → P a
unless_none P m a (inl stops) e = absurd (ground arith)
unless_none P m a (inr h) e = Returns-at P m a h e

unfoldable pub ticked : KeyClient → ℕ → KeyClient
ticked c t = record c { interval_timeout = some (t + c.interval) }

callback-IsConsistent :
    (c c' : KeyClient) (r : SendResult) → IsConsistent c → callback c r ≡ some c' → IsConsistent c'
unfolding callback ticked
callback-IsConsistent c c' r v e = elim (Option-cases c.interval_timeout) [
  | inl missing ↦ absurd (ground arith)
  | inr (t, timer) ↦
      unless_none IsConsistent (do_interval_timeout (ticked c t) r) c'
        ((do_interval_timeout_lem (ticked c t) r (t + c.interval) (ground arith) refl).1)
        (ground arith)
]

init-IsConsistent :
    (tc ts i n : ℕ) (packets : List KeyPacket) (addr : BdAddr) (key : Key) (id : ℕ)
    → length packets ≡ send_buffer_size
    → Returns IsConsistent (init tc ts i n packets addr key id)
unfolding init
init-IsConsistent tc ts i n packets addr key id room =
    let (b, made, valid, nothing, cap) = create_lem key send_buffer_size (omega arith) in
    ground (arith, made, ap length nothing, length-to_list b valid)

pub Step-IsConsistent : (c c' : KeyClient) → Step c c' → IsConsistent c → IsConsistent c'
Step-IsConsistent c c' (connecting_to _ _ addr port sys slow e) v =
    Returns-at IsConsistent _ c' (connect_to_server-IsConsistent c addr port sys v slow) e
Step-IsConsistent c c' (connect_done _ _ id error continue e) v =
    Returns-at (λ x. IsConsistent x.0) _ (c', continue)
      (do_pending_connect-IsConsistent c id error v) e
Step-IsConsistent c c' (key_sent _ _ key r e) v =
    Returns-at IsConsistent _ c' (send_key-IsConsistent c key r v) e
Step-IsConsistent c c' (remove_sent _ _ r e) v =
    unless_none IsConsistent _ c' ((send_remove_lem c r v).1) e
Step-IsConsistent c c' (send_done _ _ id error r again continue e) v =
    unless_none (λ x. IsConsistent x.0) _ (c', continue)
      ((do_pending_send_lem c id error r again v).1) e
Step-IsConsistent c c' (time_passed _ _ r e) v = callback-IsConsistent c c' r v e
Step-IsConsistent c _ (disconnected_from _) v = disconnect_from_server-IsConsistent c v

-- Whatever the window calls and the main loop's sources call, in any order and with any results of the
-- system calls but a connection that is done at once: as long as no assertion fails, the client is
-- consistent.
pub Reach-IsConsistent : (c : KeyClient) → Reach c → IsConsistent c
Reach-IsConsistent c (start tc ts i n packets addr key id _ room e) =
    Returns-at IsConsistent _ c (init-IsConsistent tc ts i n packets addr key id room) e
Reach-IsConsistent c (later before _ r step) =
    Step-IsConsistent before c step (Reach-IsConsistent before r)

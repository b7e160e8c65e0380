-- ===== src/KeyClient/Invariant.antt =====
-- The invariant of the client, and that the operations which connect and disconnect keep it.
use stmm_input_bt.Base.{
  ℕ, ◌≡◌, ◌≢◌, Bool, true, not, ◌||◌, ℤ, length, arith, is_some, Returns, ◌==◌,
}
use stmm_input_bt.BdAddr.{BdAddr}
use stmm_input_bt.CircularBuffer.{capacity}
use stmm_input_bt.CircularBuffer.Refine.{IsValid}
use stmm_input_bt.KeyClient.State.{
  disconnected, connecting, sending, removing, same, done, Message, KeyClient, send_buffer_size,
}
use stmm_input_bt.KeyClient.Connect.{
  ConnectCalls, disconnect_internal, connect_to_server, do_pending_connect, disconnect_from_server,
}

-- What holds of a client also within an operation.
pub record IsReady (c : KeyClient) : Type 0 where
  -- the buffer and the packet array have their sizes
  pub buffer : IsValid c.buffered_keys
  pub room : capacity c.buffered_keys ≡ send_buffer_size
  pub slots : length c.packets ≡ send_buffer_size
  -- there is a socket exactly when the state is not DISCONNECTED
  pub linked : is_some c.client_fd ≡ not (same c.state disconnected)
  -- a connection is pending exactly when the state is CONNECTING
  pub waiting : is_some c.pending_connect ≡ same c.state connecting
  -- a send is pending when the state is SENDING or REMOVING
  pub pending :
      (not (same c.state sending || same c.state removing) || is_some c.pending_send) ≡ true
  -- the interval timeout exists once there is a connection
  pub timed : (same c.state disconnected || is_some c.interval_timeout) ≡ true

-- What holds of a client between two events of the main loop.
pub record IsConsistent (c : KeyClient) : Type 0 where
  pub ready : IsReady c
  -- no key is buffered while the device is being removed
  pub drained : (not (same c.state removing) || c.buffered_keys.count == 0) ≡ true

pub disconnect_internal-IsConsistent :
    (c : KeyClient) (m : Message) → IsConsistent c → IsConsistent (disconnect_internal c m)
unfolding disconnect_internal
disconnect_internal-IsConsistent c m v = ground arith

-- `connectToServer` returns and keeps the invariant, whichever of its system calls fails, unless
-- `::connect` is done at once.
pub connect_to_server-IsConsistent :
    (c : KeyClient) (addr : BdAddr) (port : ℤ) (sys : ConnectCalls)
    → IsConsistent c
    → sys.connect ≢ done
    → Returns IsConsistent (connect_to_server c addr port sys)
unfolding connect_to_server
connect_to_server-IsConsistent c addr port sys v h = ground arith

-- `doPendingConnect` returns and keeps the invariant, in every state and whatever source calls it.
pub do_pending_connect-IsConsistent :
    (c : KeyClient) (id : ℕ) (error : Bool)
    → IsConsistent c
    → Returns (λ r. IsConsistent r.0) (do_pending_connect c id error)
unfolding do_pending_connect
do_pending_connect-IsConsistent c id error v = ground arith

pub disconnect_from_server-IsConsistent :
    (c : KeyClient) → IsConsistent c → IsConsistent (disconnect_from_server c)
unfolding disconnect_from_server disconnect_internal
disconnect_from_server-IsConsistent c v = ground arith

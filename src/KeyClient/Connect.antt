-- ===== src/KeyClient/Connect.antt =====
-- btkeyclient.cc: connecting, the callback of a pending connection, and disconnecting.
use stmm_input_bt.Base.{
  ℕ, ◌+◌, Bool, true, false, not, ◌∷◌, Option, none, some, ℤ, ◌==◌, if◌then◌else◌, ◌>>◌, assert,
  is_some,
}
use stmm_input_bt.BdAddr.{BdAddr}
use stmm_input_bt.KeyClient.State.{
  disconnected, connecting, connected, removing, same, ConnectResult, done, in_progress, failed,
  SysCall, ok, err, Message, no_error, socket_failed, get_flags_failed, set_flags_failed,
  connect_failed, connection_failed, state_changed, error_raised, closed, KeyClient,
}

-- The results of the system calls of `connectToServer`, as far as they are made.
pub record ConnectCalls : Type 0 where
  pub socket : SysCall ℕ
  pub get_flags : SysCall (Unit {0})
  pub set_flags : SysCall (Unit {0})
  pub connect : ConnectResult

has_error : Message → Bool
has_error no_error = false
has_error _ = true

-- `disconnectInternal`
unfoldable pub disconnect_internal : KeyClient → Message → KeyClient
unfolding has_error
disconnect_internal c message = elim c.client_fd [
  | none ↦ c
  | some fd ↦ record c {
    client_fd = none;
    pending_connect = none;
    pending_send = none;
    last_error = message;
    state = disconnected;
    effects =
        state_changed
        ∷ (if has_error message
            then error_raised ∷ closed fd ∷ c.effects
            else closed fd ∷ c.effects);
  }
]

-- An error before the connection is under way closes the new socket.
abbrev give_up : KeyClient → ℕ → Message → KeyClient
give_up c fd message = record c {
  client_fd = none;
  last_error = message;
  effects = error_raised ∷ closed fd ∷ c.effects;
}

-- `m_refIntervalTimeout->getElapsed()` after the timeout was created if there was none.
abbrev elapsed_or_zero : Option ℕ → ℕ
elapsed_or_zero none = 0
elapsed_or_zero (some t) = t

begin_connecting : KeyClient → KeyClient
begin_connecting c = record c {
  pending_connect = some c.next_source_id;
  next_source_id = c.next_source_id + 1;
  interval_timeout = some (elapsed_or_zero c.interval_timeout);
  started_connecting = elapsed_or_zero c.interval_timeout;
  state = connecting;
  effects = state_changed ∷ c.effects;
}

unfoldable pub open_connection : KeyClient → BdAddr → ℤ → ConnectCalls → KeyClient
unfolding begin_connecting
open_connection c addr port sys = elim sys.socket [
  | err n ↦ record c { last_error = socket_failed n; effects = error_raised ∷ c.effects }
  | ok fd ↦ elim sys.get_flags [
    | err n ↦ give_up c fd (get_flags_failed n)
    | ok _ ↦ elim sys.set_flags [
      | err n ↦ give_up c fd (set_flags_failed n)
      | ok _ ↦
          let c' = record c { client_fd = some fd; server_addr = addr; l2cap_port = port } in
          elim sys.connect [
            | in_progress ↦ begin_connecting c'
            | failed n ↦ give_up c' fd (connect_failed n)
            | done ↦ record c' {
              last_error = no_error;
              state = connected;
              effects = state_changed ∷ c.effects;
            }
          ]
    ]
  ]
]

-- `connectToServer`
unfoldable pub connect_to_server : KeyClient → BdAddr → ℤ → ConnectCalls → Option KeyClient
unfolding open_connection
connect_to_server c addr port sys =
    if same c.state removing
    then some c
    else if is_some c.client_fd
    then some c
    else do assert (same c.state disconnected); some (open_connection c addr port sys)

-- `doPendingConnect`, with the returned `bContinue`.
unfoldable pub do_pending_connect : KeyClient → ℕ → Bool → Option (KeyClient × Bool)
unfolding disconnect_internal
do_pending_connect c source_id error = elim c.pending_connect [
  | none ↦ some (c, false)
  | some current ↦ if not (source_id == current) then some (c, false) else do
    assert (same c.state connecting)
    some (
        if error then (disconnect_internal c connection_failed, false) else (
          record c {
            pending_connect = none;
            last_error = no_error;
            state = connected;
            effects = state_changed ∷ c.effects;
          },
          false,
        ))
]

-- `disconnectFromServer`
unfoldable pub disconnect_from_server : KeyClient → KeyClient
disconnect_from_server c = if same c.state removing then c else disconnect_internal c no_error

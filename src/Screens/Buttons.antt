-- ===== src/Screens/Buttons.antt =====
-- btkbwindow.cc: the buttons that connect to a server, disconnect, ask for the removal and refresh the list of
-- servers, which of them the user can press, and what the window does on the signals. `::send` answers a
-- client by a parameter. The log's lines of the client's errors are left out.
use stmm_input_bt.Base.{
  ℕ, zero, suc, ◌-◌, Bool, not, ◌&&◌, ◌||◌, ◌+◌, List, [], ◌∷◌, Option, some, ℤ, ltb, is_some,
  if◌then◌else◌, ◌>>=◌, ◌>>◌, assert,
}
use stmm_input_bt.BdAddr.{BdAddr}
use stmm_input_bt.KeyClient.State.{
  State, disconnected, connected, sending, removing, same, Key, SendResult, KeyClient,
}
use stmm_input_bt.KeyClient.Connect.{ConnectCalls, connect_to_server, disconnect_from_server}
use stmm_input_bt.KeyClient.Send.{send_key, send_remove}
use stmm_input_bt.KeyClient.Signals.{state_signals}
use stmm_input_bt.KeyServers.{
  RefreshError, no_error, ServerInfo, ServersSignal, servers_changed, refresh_progress, tick,
  KeyServers, start_refresh_servers, get_servers,
}
use stmm_input_bt.PressedKeys.{
  KeyWindow, print_to_log, finalize_keys, removal_line, state_line, refresh_line,
}

-- Whether the buttons are sensitive.
pub record Buttons : Type 0 where
  pub connect : Bool
  pub disconnect : Bool
  pub remove : Bool
  pub choose_server : Bool
  pub input_server : Bool
  pub refresh_servers : Bool

pub record Panel : Type 0 where
  pub window : KeyWindow KeyClient
  pub servers : KeyServers
  pub buttons : Buttons

-- `isRefreshing`
abbrev pub is_refreshing : KeyServers → Bool
is_refreshing k = is_some k.refresh_started

-- `setSensitivityForState`; the keyboard is only drawn again.
unfoldable pub set_sensitivity_for_state : Panel → Panel
set_sensitivity_for_state p =
    let state : State = p.window.client.state in
    let at_rest = same state disconnected in
    record p {
      buttons = record {
        connect = at_rest;
        disconnect = not at_rest && not (same state removing);
        remove = same state connected || same state sending;
        choose_server = at_rest;
        input_server = at_rest;
        refresh_servers = not (is_refreshing p.servers);
      };
    }

abbrev pub with_client : Panel → KeyClient → Panel
with_client p c = record p { window = record p.window { client = c } }

-- The end of the constructor, with `recreateServersList`'s call of `getServers`.
unfoldable pub open_window : Panel → Panel
open_window p = set_sensitivity_for_state (record p { servers = (get_servers p.servers).0 })

-- How often the change of the servers was signaled.
unfoldable pub servers_signals : List ServersSignal → ℕ
servers_signals [] = 0
servers_signals (servers_changed ∷ signals) = servers_signals signals + 1
servers_signals (refresh_progress t ∷ signals) = servers_signals signals

-- How many signals a client gave since it was `c`.
abbrev pub new_signals : KeyClient → KeyClient → ℕ
new_signals c c' = state_signals c'.effects - state_signals c.effects

module _ (answer : KeyClient → SendResult) where
  abbrev pub is_connected : KeyClient → Bool
  is_connected c = same c.state connected

  abbrev pub send : Key → KeyClient → Option KeyClient
  send key c = send_key c key (answer c)

  -- `onClientStateChanged`
  unfoldable pub on_client_state_changed : Panel → Panel
  on_client_state_changed p =
      let line = state_line p.window.client.state in
      set_sensitivity_for_state (record p { window = print_to_log is_connected send p.window line })

  -- The handler, as often as it is called. A call of the client signals at most once, when its state is what it
  -- is at the call's end.
  unfoldable pub hear_client : ℕ → Panel → Panel
  hear_client zero p = p
  hear_client (suc n) p = hear_client n (on_client_state_changed p)

  -- The client that the window calls, or a source of the main loop, has become this one.
  unfoldable pub client_moved : KeyClient → Panel → Panel
  unfolding hear_client
  client_moved c p = hear_client (new_signals p.window.client c) (with_client p c)

  -- `onButtonConnect`
  unfoldable pub on_button_connect : BdAddr → ℤ → ConnectCalls → Panel → Option Panel
  unfolding client_moved
  on_button_connect addr port sys p = do
    c ← connect_to_server p.window.client addr port sys
    some (set_sensitivity_for_state (client_moved c p))

  -- `onButtonDisconnect`
  unfoldable pub on_button_disconnect : Panel → Panel
  unfolding client_moved
  on_button_disconnect p =
      set_sensitivity_for_state (client_moved (disconnect_from_server p.window.client) p)

  -- `onButtonRemove` after `finalizeKeys`.
  unfoldable pub ask_removal : Panel → Option Panel
  unfolding client_moved
  ask_removal p = do
    let w = print_to_log is_connected send p.window removal_line
    c ← send_remove w.client (answer w.client)
    some (set_sensitivity_for_state (client_moved c (record p { window = w })))

  -- `onButtonRemove`. The releases change the client's state at most once, since a client that is not
  -- connected sends nothing at once; the log's line of that stands behind theirs.
  unfoldable pub on_button_remove : Panel → Option Panel
  unfolding hear_client ask_removal
  on_button_remove p = do
    w ← finalize_keys is_connected send p.window
    ask_removal (hear_client (new_signals p.window.client w.client) (record p { window = w }))

  -- What follows in `onServersChanged`, with `recreateServersList`'s call of `getServers`.
  unfoldable pub show_refreshed : RefreshError → Panel → Panel
  show_refreshed no_error p = record p { servers = (get_servers p.servers).0 }
  show_refreshed error p = record p {
    window = print_to_log is_connected send p.window (refresh_line error);
  }

  -- `onServersChanged`
  unfoldable pub on_servers_changed : Panel → Panel
  unfolding show_refreshed
  on_servers_changed p = show_refreshed p.servers.last_error (set_sensitivity_for_state p)

  -- A second has passed for the servers, whose thread gives this result.
  unfoldable pub servers_ticked : Option (RefreshError × List ServerInfo) → Panel → Option Panel
  unfolding on_servers_changed
  servers_ticked result p = do
    k ← tick p.servers result
    let p' = record p { servers = k }
    some (
        if ltb (servers_signals p.servers.signals) (servers_signals k.signals)
        then on_servers_changed p'
        else p')

-- `onRefreshServers`
unfoldable pub on_refresh_servers : Panel → Option Panel
on_refresh_servers p = do
  assert (not (is_refreshing p.servers))
  some (set_sensitivity_for_state (record p { servers = (start_refresh_servers p.servers).0 }))

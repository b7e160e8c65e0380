-- ===== src/Screens/ButtonsTests.antt =====
-- A window whose user connects to a server, which answers.
use stmm_input_bt.Base.{ℕ, ◌≡◌, ◌⊎◌, refl, true, false, List, [], ◌∷◌, none, some, pos, Returns}
use stmm_input_bt.BdAddr.{empty_addr, same_addr}
use stmm_input_bt.KeyClient.State.{SendResult, accepted, KeyClient, connecting}
use stmm_input_bt.KeyClient.Connect.{connect_to_server, do_pending_connect}
use stmm_input_bt.KeyClient.Reached.{calls, some_addr, fresh, calling, at_server}
use stmm_input_bt.KeyClient.Signals.{state_signals}
use stmm_input_bt.KeyClient.Steps.{connect_done}
use stmm_input_bt.KeyServers.{
  KeyServers, unknown, no_error, get_servers, start_refresh_servers, is_valid, is_valid_addr,
  is_valid_port,
}
use stmm_input_bt.PressedKeys.{Line, state_line, print_to_log}
use stmm_input_bt.Screens.Buttons.{
  open_window, Panel, set_sensitivity_for_state, hear_client, client_moved, on_client_state_changed,
  on_button_connect, on_refresh_servers,
}
use stmm_input_bt.Screens.Staging.{Staging, find_server, on_choose_server}
use stmm_input_bt.Screens.Showing.{IsCurrent}
use stmm_input_bt.Screens.ButtonsLaws.{
  PanelPath, here, onward, connect_clicked, server_chosen, client_stepped, PanelPath-IsCurrent,
}

abbrev accepting : KeyClient → SendResult
accepting c = accepted

abbrev quiet_servers : KeyServers
quiet_servers = record {
  periods = 8;
  l2cap_port = pos 8353;
  extra_addr = empty_addr;
  last_error = no_error;
  servers = [];
  future_valid = false;
  refresh_started = none;
  hung_thread = false;
  interval_timeout = none;
  signals = [];
}

-- The window with this client and this log, before and after the end of its construction.
abbrev closed_panel : KeyClient → List Line → ℕ → Panel
closed_panel c log lines = record {
  window = record { pressed = []; log_sent_keys = true; log = log; tot_lines = lines; client = c };
  servers = quiet_servers;
  buttons = record {
    connect = false;
    disconnect = false;
    remove = false;
    choose_server = false;
    input_server = false;
    refresh_servers = false;
  };
}

abbrev panel : KeyClient → List Line → ℕ → Panel
panel c log lines = open_window (closed_panel c log lines)

abbrev idle : Panel
idle = panel fresh [] 0

abbrev waiting : Panel
waiting = panel calling (state_line connecting ∷ []) 1

abbrev linked : Panel
linked = client_moved accepting at_server waiting

-- The user chooses a server that is no longer listed.
abbrev chosen : Staging
chosen = record {
  cur_server = record { bt_addr = empty_addr; l2cap_port = pos 0; name = unknown; sdp = false };
  selected_addr = 1 ∷ 2 ∷ 3 ∷ 4 ∷ 5 ∷ 6 ∷ [];
  selected_port = pos 4097;
  entry = [];
  addr = [];
  invalid = false;
}

path : PanelPath accepting idle linked
unfolding open_window set_sensitivity_for_state on_button_connect connect_to_server client_moved
    hear_client on_client_state_changed state_signals print_to_log do_pending_connect get_servers
    start_refresh_servers on_choose_server find_server is_valid is_valid_addr is_valid_port
    same_addr
path =
    onward idle waiting linked
      (onward idle idle waiting
        (onward idle idle idle (here idle) (
          server_chosen idle (λ text. some text) (λ addr. addr) chosen chosen idle.servers refl
            refl))
        (connect_clicked idle waiting some_addr (pos 8353) calls refl refl))
      (client_stepped waiting at_server (connect_done calling at_server 7 false false refl))

PanelPath-IsCurrent_example :
    IsCurrent linked
    × ((linked.buttons.refresh_servers ≡ false) ⊎ Returns IsCurrent (on_refresh_servers linked))
    × ((linked.buttons.connect ≡ false)
        ⊎ Returns IsCurrent (on_button_connect accepting some_addr (pos 8353) calls linked))
PanelPath-IsCurrent_example =
    PanelPath-IsCurrent accepting (closed_panel fresh [] 0) linked some_addr (pos 8353) calls refl
      path

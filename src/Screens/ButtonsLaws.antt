-- ===== src/Screens/ButtonsLaws.antt =====
-- btkbwindow.cc: the buttons show the states of the client and of the refresh.
use stmm_input_bt.Base.{
  ◌≡◌, ◌⊎◌, inl, inr, refl, true, false, List, Option, none, some, ℤ, arith, Returns, Option-cases,
  Bool-cases, is_some, sym, ℕ, zero, suc, subst, assert, ltb, if◌then◌else◌, not,
}
use stmm_input_bt.BdAddr.{BdAddr}
use stmm_input_bt.KeyClient.State.{SendResult, KeyClient}
use stmm_input_bt.KeyClient.Connect.{ConnectCalls, connect_to_server, disconnect_from_server}
use stmm_input_bt.KeyClient.Send.{send_remove}
use stmm_input_bt.KeyClient.Signals.{Step-HasSignaled}
use stmm_input_bt.KeyClient.Steps.{Step, unless_none}
use stmm_input_bt.KeyServers.{
  KeyServers, RefreshError, ServerInfo, tick, get_servers, start_refresh_servers,
}
use stmm_input_bt.PressedKeys.{KeyWindow, print_to_log, finalize_keys, removal_line}
use stmm_input_bt.Screens.Buttons.{
  Panel, open_window, new_signals, with_client, is_refreshing, is_connected, send, ask_removal,
  show_refreshed, set_sensitivity_for_state, servers_signals, on_client_state_changed, hear_client,
  client_moved, on_button_connect, on_button_disconnect, on_button_remove, on_servers_changed,
  servers_ticked, on_refresh_servers,
}
use stmm_input_bt.Screens.Staging.{Text, Staging, on_choose_server, on_server_selection_changed}
use stmm_input_bt.Screens.Showing.{
  IsCurrent, IsSettled, IsShowing, get_servers-IsSettled, HasSignaledServers, tick-HasSignaled,
  set_sensitivity_for_state-IsCurrent, set_sensitivity_for_state-IsShowing, ends-IsShowing,
  choose-servers, select-servers,
}

module _ (answer : KeyClient → SendResult) where
  -- What happens to the window: the user presses a sensitive button, chooses a server or selects a row of
  -- their list, the client meets an event, a second passes for the servers, or the held keys and the
  -- log change.
  pub data PanelStep : Panel → Panel → Type 0 where
    connect_clicked :
        (p p' : Panel) (addr : BdAddr) (port : ℤ) (sys : ConnectCalls)
        → p.buttons.connect ≡ true
        → on_button_connect answer addr port sys p ≡ some p'
        → PanelStep p p'
    disconnect_clicked :
        (p : Panel) → p.buttons.disconnect ≡ true → PanelStep p (on_button_disconnect answer p)
    remove_clicked :
        (p p' : Panel)
        → p.buttons.remove ≡ true
        → on_button_remove answer p ≡ some p'
        → PanelStep p p'
    refresh_clicked :
        (p p' : Panel)
        → p.buttons.refresh_servers ≡ true
        → on_refresh_servers p ≡ some p'
        → PanelStep p p'
    server_chosen :
        (p : Panel) (str2ba : Text → Option BdAddr) (ba2str : BdAddr → Text) (s s' : Staging)
        (k : KeyServers)
        → p.buttons.choose_server ≡ true
        → on_choose_server str2ba ba2str p.servers s ≡ some (s', k)
        → PanelStep p (record p { servers = k })
    row_selected :
        (p : Panel) (str2ba : Text → Option BdAddr) (ba2str : BdAddr → Text)
        (row : Option (BdAddr × ℤ)) (s s' : Staging) (k : KeyServers)
        → on_server_selection_changed str2ba ba2str row p.servers s ≡ some (s', k)
        → PanelStep p (record p { servers = k })
    client_stepped :
        (p : Panel) (c : KeyClient) → Step p.window.client c → PanelStep p (client_moved answer c p)
    second_passed :
        (p p' : Panel) (result : Option (RefreshError × List ServerInfo))
        → servers_ticked answer result p ≡ some p'
        → PanelStep p p'
    keys_changed :
        (p : Panel) (w : KeyWindow KeyClient)
        → w.client ≡ p.window.client
        → PanelStep p (record p { window = w })

  hear_client-servers : (n : ℕ) (p : Panel) → (hear_client answer n p).servers ≡ p.servers
  unfolding hear_client on_client_state_changed set_sensitivity_for_state
  hear_client-servers zero p = refl
  hear_client-servers (suc n) p = hear_client-servers n (on_client_state_changed answer p)

  client_moved-IsSettled :
      (p : Panel) (c : KeyClient)
      → IsSettled p.servers
      → IsSettled (client_moved answer c p).servers
  unfolding client_moved
  client_moved-IsSettled p c h =
      subst IsSettled (sym (hear_client-servers (new_signals p.window.client c) (with_client p c)))
        h

  client_moved-IsCurrent :
      (p : Panel) (c : KeyClient)
      → Step p.window.client c
      → IsCurrent p
      → IsCurrent (client_moved answer c p)
  unfolding client_moved hear_client on_client_state_changed set_sensitivity_for_state
  client_moved-IsCurrent p c step h = elim (Step-HasSignaled p.window.client c step) [
    | inl (same_state, silent) ↦
        let none_new : new_signals p.window.client c ≡ 0 = omega (arith, silent) in
        rw none_new (ground (arith, same_state, h))
    | inr told ↦
        let one_new : new_signals p.window.client c ≡ 1 = omega (arith, told) in rw one_new refl
  ]

  -- A refresh whose end is shown is not followed by another.
  show_refreshed-IsShowing :
      (error : RefreshError) (p : Panel)
      → is_some p.servers.interval_timeout ≡ true
      → IsCurrent p
      → IsShowing (show_refreshed answer error p)
  unfolding show_refreshed get_servers set_sensitivity_for_state print_to_log
  show_refreshed-IsShowing error p timer h = ground arith

  heard-IsShowing :
      (p : Panel) (k : KeyServers)
      → HasSignaledServers p.servers k
      → IsCurrent p
      → IsShowing (
          if ltb (servers_signals p.servers.signals) (servers_signals k.signals)
          then on_servers_changed answer (record p { servers = k })
          else record p { servers = k })
  unfolding on_servers_changed set_sensitivity_for_state
  heard-IsShowing p k (timer, told) h =
      elim (Bool-cases (ltb (servers_signals p.servers.signals) (servers_signals k.signals))) [
        | inl more ↦ rw more (
            show_refreshed-IsShowing k.last_error
              (set_sensitivity_for_state (record p { servers = k })) timer
              (set_sensitivity_for_state-IsCurrent (record p { servers = k })))
        | inr same_count ↦ rw same_count (ground (arith, told, timer, h))
      ]

  servers_ticked-IsShowing :
      (p : Panel) (result : Option (RefreshError × List ServerInfo))
      → IsCurrent p
      → (servers_ticked answer result p ≡ none) ⊎ Returns IsShowing (servers_ticked answer result p)
  unfolding servers_ticked
  servers_ticked-IsShowing p result h = elim (Option-cases (tick p.servers result)) [
    | inl e ↦ rw e (inl refl)
    | inr (k, e) ↦ rw e (
        inr (
          heard-IsShowing p k
            (unless_none (HasSignaledServers p.servers) _ k (tick-HasSignaled p.servers result) e)
            h))
  ]

  ask_removal-IsShowing :
      (p p' : Panel) → IsSettled p.servers → ask_removal answer p ≡ some p' → IsShowing p'
  unfolding ask_removal
  ask_removal-IsShowing p p' h e =
      let w = print_to_log (is_connected answer) (send answer) p.window removal_line in
      ends-IsShowing (send_remove w.client (answer w.client))
        (λ c. client_moved answer c (record p { window = w })) p'
        (λ c. client_moved-IsSettled (record p { window = w }) c h) e

  on_button_remove-IsShowing :
      (p p' : Panel) → IsSettled p.servers → on_button_remove answer p ≡ some p' → IsShowing p'
  unfolding on_button_remove
  on_button_remove-IsShowing p p' h e =
      elim (Option-cases (finalize_keys (is_connected answer) (send answer) p.window)) [
        | inl stops ↦ absurd (ground (arith, stops, e))
        | inr (w, returns) ↦
            let n = new_signals p.window.client w.client in
            ask_removal-IsShowing (hear_client answer n (record p { window = w })) p'
              (subst IsSettled (sym (hear_client-servers n (record p { window = w }))) h)
              (rw returns at e)
      ]

  unmoved-IsShowing :
      (p : Panel) (k : KeyServers)
      → k ≡ p.servers
      → IsShowing p
      → IsShowing (record p { servers = k })
  unmoved-IsShowing p k e h = subst (λ x. IsShowing (record p { servers = x })) (sym e) h

  PanelStep-IsShowing : (p p' : Panel) → PanelStep p p' → IsShowing p → IsShowing p'
  unfolding on_button_connect on_button_disconnect on_refresh_servers start_refresh_servers
      set_sensitivity_for_state
  PanelStep-IsShowing p p' (connect_clicked _ _ addr port sys on e) h =
      ends-IsShowing (connect_to_server p.window.client addr port sys)
        (λ c. client_moved answer c p) p' (λ c. client_moved-IsSettled p c h.1) e
  PanelStep-IsShowing p _ (disconnect_clicked _ on) h =
      let c = disconnect_from_server p.window.client in
      set_sensitivity_for_state-IsShowing (client_moved answer c p) (client_moved-IsSettled p c h.1)
  PanelStep-IsShowing p p' (remove_clicked _ _ on e) h = on_button_remove-IsShowing p p' h.1 e
  PanelStep-IsShowing p p' (refresh_clicked _ _ on e) h =
      ends-IsShowing (assert (not (is_refreshing p.servers)))
        (λ _. record p { servers = (start_refresh_servers p.servers).0 }) p'
        (λ _. ground (arith, h.1)) e
  PanelStep-IsShowing p _ (server_chosen _ str2ba ba2str s s' k on e) h =
      unmoved-IsShowing p k
        (unless_none (λ r. r.1 ≡ p.servers) _ (s', k) (choose-servers str2ba ba2str p.servers s h.1)
          e)
        h
  PanelStep-IsShowing p _ (row_selected _ str2ba ba2str row s s' k e) h =
      unmoved-IsShowing p k
        (unless_none (λ r. r.1 ≡ p.servers) _ (s', k)
          (select-servers str2ba ba2str row p.servers s h.1) e)
        h
  PanelStep-IsShowing p _ (client_stepped _ c step) h =
      (client_moved-IsCurrent p c step h.0, client_moved-IsSettled p c h.1)
  PanelStep-IsShowing p p' (second_passed _ _ result e) h =
      unless_none IsShowing _ p' (servers_ticked-IsShowing p result h.0) e
  PanelStep-IsShowing p _ (keys_changed _ w same_client) h = (ground (arith, same_client, h.0), h.1)

  -- Any number of them.
  pub data PanelPath : Panel → Panel → Type 0 where
    here : (p : Panel) → PanelPath p p
    onward : (p q r : Panel) → PanelPath p q → PanelStep q r → PanelPath p r

  path-IsShowing : (p q : Panel) → PanelPath p q → IsShowing p → IsShowing q
  path-IsShowing p _ (here _) h = h
  path-IsShowing p q (onward _ before _ path step) h =
      PanelStep-IsShowing before q step (path-IsShowing p before path h)

  open_window-IsShowing : (p : Panel) → p.servers.refresh_started ≡ none → IsShowing (open_window p)
  unfolding open_window
  open_window-IsShowing p idle =
      set_sensitivity_for_state-IsShowing (record p { servers = (get_servers p.servers).0 })
        (get_servers-IsSettled p.servers idle)

  on_refresh_servers-IsCurrent :
      (p : Panel)
      → IsCurrent p
      → (p.buttons.refresh_servers ≡ false) ⊎ Returns IsCurrent (on_refresh_servers p)
  unfolding on_refresh_servers set_sensitivity_for_state
  on_refresh_servers-IsCurrent p h = ground arith

  on_button_connect-IsCurrent :
      (p : Panel) (addr : BdAddr) (port : ℤ) (sys : ConnectCalls)
      → IsCurrent p
      → (p.buttons.connect ≡ false) ⊎ Returns IsCurrent (on_button_connect answer addr port sys p)
  unfolding on_button_connect connect_to_server set_sensitivity_for_state
  on_button_connect-IsCurrent p addr port sys h = ground arith

  -- From the end of the construction of a window on, while no refresh was started before it, whatever
  -- of these happens in any order and returns: the user presses the buttons that connect, disconnect,
  -- ask for the removal, refresh or choose a server, if they are sensitive, or selects a row of the
  -- list of servers; the client meets an event but a connection of its own that is done at once;
  -- seconds pass for the servers; the held keys and the log change. Then the buttons are as
  -- `setSensitivityForState` would set them; the button that refreshes, if it is sensitive, does not
  -- meet the assertion of `onRefreshServers`, and the one that connects not that of `connectToServer`.
  pub PanelPath-IsCurrent :
      (p q : Panel) (addr : BdAddr) (port : ℤ) (sys : ConnectCalls)
      → p.servers.refresh_started ≡ none
      → PanelPath (open_window p) q
      → IsCurrent q
        × ((q.buttons.refresh_servers ≡ false) ⊎ Returns IsCurrent (on_refresh_servers q))
        × ((q.buttons.connect ≡ false)
            ⊎ Returns IsCurrent (on_button_connect answer addr port sys q))
  PanelPath-IsCurrent p q addr port sys idle path =
      let current : IsCurrent q =
        (path-IsShowing (open_window p) q path (open_window-IsShowing p idle)).0 in
      (
        current,
        on_refresh_servers-IsCurrent q current,
        on_button_connect-IsCurrent q addr port sys current,
      )

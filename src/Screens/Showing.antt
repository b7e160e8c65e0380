-- ===== src/Screens/Showing.antt =====
-- btkbwindow.cc: when the buttons are as they should, and what the choice of a server and the time do to the
-- servers.
use stmm_input_bt.Base.{
  ◌≡◌, ◌⊎◌, inl, inr, refl, true, false, List, Option, none, some, ℤ, arith, Returns, Option-cases,
  is_some, ◌&&◌, ◌+◌, ◌>>=◌, subst, not,
}
use stmm_input_bt.BdAddr.{BdAddr}
use stmm_input_bt.KeyServers.{
  KeyServers, RefreshError, ServerInfo, tick, do_refresh_timeout, get_servers, is_empty_addr,
  start_refresh_servers,
}
use stmm_input_bt.Screens.Buttons.{Panel, is_refreshing, set_sensitivity_for_state, servers_signals}
use stmm_input_bt.Screens.Staging.{Text, Staging, on_choose_server, on_server_selection_changed}

-- The buttons are as `setSensitivityForState` would set them now.
abbrev pub IsCurrent : Panel → Type 0
IsCurrent p = p.buttons ≡ (set_sensitivity_for_state p).buttons

-- `getServers` starts no refresh any more.
abbrev pub IsSettled : KeyServers → Type 0
IsSettled k = (is_empty_addr k.extra_addr && not (is_some k.interval_timeout)) ≡ false

abbrev pub IsShowing : Panel → Type 0
IsShowing p = IsCurrent p × IsSettled p.servers

pub get_servers-settled : (k : KeyServers) → IsSettled k → (get_servers k).0 ≡ k
unfolding get_servers
get_servers-settled k h = rw (get_servers, h) refl

pub get_servers-IsSettled :
    (k : KeyServers) → k.refresh_started ≡ none → IsSettled (get_servers k).0
unfolding get_servers start_refresh_servers
get_servers-IsSettled k idle = ground arith

-- The servers' timeout runs, and they have signaled it if the refresh ended.
abbrev pub HasSignaledServers : KeyServers → KeyServers → Type 0
HasSignaledServers k k' =
    (is_some k'.interval_timeout ≡ true)
    × (((is_refreshing k' ≡ is_refreshing k)
          × (servers_signals k'.signals ≡ servers_signals k.signals))
        ⊎ (servers_signals k'.signals ≡ servers_signals k.signals + 1))

pub tick-HasSignaled :
    (k : KeyServers) (result : Option (RefreshError × List ServerInfo))
    → (tick k result ≡ none) ⊎ Returns (HasSignaledServers k) (tick k result)
unfolding tick do_refresh_timeout servers_signals
tick-HasSignaled k result = ground arith

pub set_sensitivity_for_state-IsCurrent : (p : Panel) → IsCurrent (set_sensitivity_for_state p)
unfolding set_sensitivity_for_state
set_sensitivity_for_state-IsCurrent p = refl

pub set_sensitivity_for_state-IsShowing :
    (p : Panel) → IsSettled p.servers → IsShowing (set_sensitivity_for_state p)
unfolding set_sensitivity_for_state
set_sensitivity_for_state-IsShowing p h = (refl, h)

-- A handler that ends with `setSensitivityForState`, and leaves the servers settled.
pub ends-IsShowing :
    {A : Type 0} (m : Option A) (f : A → Panel) (p' : Panel)
    → ((a : A) → IsSettled (f a).servers)
    → (m >>= (λ a. some (set_sensitivity_for_state (f a)))) ≡ some p'
    → IsShowing p'
ends-IsShowing none f p' h e = absurd (ground arith)
ends-IsShowing (some a) f p' h e =
    subst (Returns IsShowing) e (set_sensitivity_for_state-IsShowing (f a) (h a))

-- The choice of a server leaves settled servers as they are.
pub choose-servers :
    (str2ba : Text → Option BdAddr) (ba2str : BdAddr → Text) (k : KeyServers) (s : Staging)
    → IsSettled k
    → (on_choose_server str2ba ba2str k s ≡ none)
      ⊎ Returns (λ r. r.1 ≡ k) (on_choose_server str2ba ba2str k s)
unfolding on_choose_server
choose-servers str2ba ba2str k s h = elim (Option-cases (str2ba s.selected_addr)) [
  | inl bad ↦ ground (arith, bad)
  | inr (addr, read) ↦ ground (arith, read, get_servers-settled k h)
]

pub select-servers :
    (str2ba : Text → Option BdAddr) (ba2str : BdAddr → Text) (row : Option (BdAddr × ℤ))
    (k : KeyServers) (s : Staging)
    → IsSettled k
    → (on_server_selection_changed str2ba ba2str row k s ≡ none)
      ⊎ Returns (λ r. r.1 ≡ k) (on_server_selection_changed str2ba ba2str row k s)
unfolding on_server_selection_changed
select-servers str2ba ba2str none k s h = inr refl
select-servers str2ba ba2str (some (addr, port)) k s h =
    let s' : Staging = record s { selected_addr = ba2str addr; selected_port = port } in
    ground (arith, choose-servers str2ba ba2str k s' h)

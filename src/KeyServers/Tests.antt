-- ===== src/KeyServers/Tests.antt =====
-- Servers whose refresh is running, and one address of each kind.
use stmm_input_bt.Base.{◌≡◌, refl, true, false, [], ◌∷◌, none, some, arith, pos, Returns}
use stmm_input_bt.BdAddr.{BdAddr, same_addr}
use stmm_input_bt.KeyServers.{KeyServers, is_empty_addr, no_error, refresh_servers, refused_inquiry}
use stmm_input_bt.KeyServers.Addresses.{has_addr, refresh_servers-has_addr}
use stmm_input_bt.KeyServers.Refresh.{IsSound, ticks, refresh_ends}

abbrev extra : BdAddr
extra = 1 ∷ 2 ∷ 3 ∷ 4 ∷ 5 ∷ 6 ∷ []

abbrev broadcast : BdAddr
broadcast = 255 ∷ 255 ∷ 255 ∷ 255 ∷ 255 ∷ 255 ∷ []

abbrev running : KeyServers
running = record {
  periods = 8;
  l2cap_port = pos 8353;
  extra_addr = extra;
  last_error = no_error;
  servers = [];
  future_valid = true;
  refresh_started = some 3000;
  hung_thread = false;
  interval_timeout = some 4000;
  signals = [];
}

running-IsSound : IsSound running
running-IsSound = (refl, omega arith)

extra-is_not_empty : is_empty_addr extra ≡ false
unfolding same_addr
extra-is_not_empty = refl

refresh_servers-has_addr_example :
    has_addr extra (refresh_servers (pos 8353) extra (refused_inquiry 5)).1 ≡ true
refresh_servers-has_addr_example =
    refresh_servers-has_addr (pos 8353) extra (refused_inquiry 5) extra-is_not_empty

refresh_ends_example : Returns (λ k'. k'.refresh_started ≡ none) (ticks 20 running)
refresh_ends_example =
    refresh_ends 20 4000 3000 running running-IsSound refl refl refl (omega arith) (omega arith)

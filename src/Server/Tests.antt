-- ===== src/Server/Tests.antt =====
-- A server with one window and one listener, to which a keyboard connects, sends a key, and is removed.
use stmm_input_bt.Base.{
  ℕ, zero, suc, ◌≡◌, ◌≢◌, refl, Bool, true, false, not, List, [], ◌∷◌, Option, none, some,
  length-map, get_elem?, if◌then◌else◌, ◌==◌, arith, Returns,
}
use stmm_input_bt.BdAddr.{BdAddr, same_addr, empty_addr}
use stmm_input_bt.KeyPacket.{KeyPacket, KeyInputType, key_press, key_release}
use stmm_input_bt.Backend.{
  Backend, is_empty_bd_addr, no_clients, attached, do_server_accept_client, do_server_receive,
}
use stmm_input_bt.Backend.Link.{has_client}
use stmm_input_bt.Backend.Slots.{IsUnshared, IsWellFormed}
use stmm_input_bt.Backend.Accept.{Accepted, do_server_accept_client_lem}
use stmm_input_bt.Backend.Receive.{Received, do_server_receive_lem}
use stmm_input_bt.DeviceManager.Sound.{IsSound, expected}
use stmm_input_bt.DeviceManager.State.{
  WindowData, KeyEvent, DeviceManager, get_device, reset_listener, reset_extra_data,
}
use stmm_input_bt.DeviceManager.Alike.{owner_of, Alike-refl}
use stmm_input_bt.DeviceManager.Owner.{IsLibrary}
use stmm_input_bt.Server.{
  Event, connects, receives, removes, removal, owner_added, owner_key, owner_removed, serve_all,
}
use stmm_input_bt.Server.Linked.{InStep, in_list, manager-IsOwner, serve_all-InStep}

-- The library's list of devices.
abbrev Listing : Type 0
Listing = ℕ → Bool

abbrev listed : ℕ → Listing → Bool
listed i w = w i

abbrev add_device : ℕ → Listing → Listing × Bool
add_device i w = (λ j. if i == j then true else w j, not (w i))

abbrev remove_device : ℕ → Listing → Listing × Bool
remove_device i w = (λ j. if i == j then false else w j, w i)

abbrev silent : ℕ → KeyEvent → DeviceManager Listing → Option (DeviceManager Listing)
silent l event m = some m

abbrev untold : Bool → ℕ → DeviceManager Listing → Option (DeviceManager Listing)
untold added i m = some m

library : IsLibrary listed silent reset_extra_data untold add_device remove_device
unfolding get_device
library = record {
  calm = λ l event m. Alike-refl listed m;
  resets = λ m. (refl, refl, length-map reset_listener m.listeners, (λ j. refl), λ j. refl);
  tells = λ b i m. Alike-refl listed m;
  adds = λ i w free. (ground arith, λ j. refl);
  removes = λ i w here. (here, λ j. refl);
}

abbrev window : WindowData
window = record { accessor = some 0; is_enabled = true }

abbrev no_devices : DeviceManager Listing
no_devices = record {
  devices = [];
  gtk_windows = (0, 0) ∷ [];
  window_data = window ∷ [];
  selected = some 0;
  canceling_nested_depth = 0;
  key_events_enabled = true;
  listeners = (record { added_time_stamp = 0; canceled_keys = [] }) ∷ [];
  world = λ j. false;
}

selected_window :
    (w : ℕ)
    → some 0 ≡ some w
    → (found : WindowData) × (a : ℕ) × (get_elem? (window ∷ []) w ≡ some found)
      × (found.accessor ≡ some a)
selected_window zero h = (window, 0, refl, refl)
selected_window (suc w) h = absurd (ground arith)

started : InStep listed (no_clients, no_devices)
unfolding get_device
started = record {
  backend = record {
    same_length = refl;
    unshared = λ i j addr ne at_i at_j. absurd (ground arith);
    freed = λ i at. absurd (ground arith);
  };
  owner = record { owners = λ j. refl; windows = selected_window };
  devices = λ j. refl;
}

abbrev keyboard_addr : BdAddr
keyboard_addr = 1 ∷ 0 ∷ 0 ∷ 0 ∷ 0 ∷ 0 ∷ []

keyboard_addr-is-real : keyboard_addr ≢ empty_addr
keyboard_addr-is-real e = cc

abbrev press : KeyPacket
press = record { magic1 = b'7'; magic2 = b'A'; cmd = 0; key_type = 1; hardware_key = 30 }

abbrev to_type : ℕ → KeyInputType
to_type zero = key_release
to_type (suc n) = key_press

abbrev session : List Event
session = connects 5 keyboard_addr ∷ receives 0 press ∷ removes 0 press ∷ []

serve_all-InStep_example : Returns (InStep listed) (
    serve_all to_type
      (λ w. 7)
      silent
      reset_extra_data
      untold
      add_device
      remove_device
      session
      no_clients
      no_devices)
serve_all-InStep_example =
    serve_all-InStep listed to_type (λ w. 7) silent reset_extra_data untold add_device remove_device
      library session no_clients no_devices (keyboard_addr-is-real, tt) started

-- The keyboard is connected.
abbrev one_client : Backend
one_client = record {
  permanent_addrs = keyboard_addr ∷ [];
  input_sources = some (attached 0 5) ∷ [];
}

abbrev first_only : Listing
first_only zero = true
first_only (suc j) = false

abbrev one_device : DeviceManager Listing
one_device = record no_devices {
  devices = some (record { has_owner = true; pressed_keys = [] }) ∷ [];
  world = first_only;
}

abbrev mouse_addr : BdAddr
mouse_addr = 2 ∷ 0 ∷ 0 ∷ 0 ∷ 0 ∷ 0 ∷ []

mouse_addr-is-real : mouse_addr ≢ empty_addr
mouse_addr-is-real e = cc

alone : IsUnshared (keyboard_addr ∷ [])
alone zero zero addr ne at_i at_j = refl
alone zero (suc j) addr ne at_i at_j = absurd (ground (arith, at_j))
alone (suc i) j addr ne at_i at_j = absurd (ground (arith, at_i))

in_use :
    (i : ℕ)
    → get_elem? one_client.permanent_addrs i ≡ some empty_addr
    → get_elem? one_client.input_sources i ≡ some none
in_use zero at = cc
in_use (suc i) at = absurd (ground (arith, at))

one_client-IsWellFormed : IsWellFormed one_client
one_client-IsWellFormed = record { same_length = refl; unshared = alone; freed = in_use }

owned : (j : ℕ) → owner_of j one_device ≡ expected (listed j one_device.world)
unfolding get_device
owned zero = refl
owned (suc j) = refl

shown : (j : ℕ) → listed j one_device.world ≡ has_client (get_elem? one_client.permanent_addrs j)
unfolding is_empty_bd_addr same_addr
shown zero = refl
shown (suc j) = refl

connected : InStep listed (one_client, one_device)
unfolding get_device
connected = record {
  backend = one_client-IsWellFormed;
  owner = record { owners = owned; windows = selected_window };
  devices = shown;
}

do_server_accept_client_lem_example :
    Returns (Accepted (IsSound listed) (in_list listed) one_client mouse_addr 6) (
      do_server_accept_client
        (owner_added to_type (λ w. 7) silent reset_extra_data untold add_device remove_device)
        (owner_key to_type (λ w. 7) silent reset_extra_data untold add_device remove_device)
        (owner_removed to_type (λ w. 7) silent reset_extra_data untold add_device remove_device)
        one_client
        one_device
        6
        mouse_addr)
do_server_accept_client_lem_example =
    do_server_accept_client_lem
      (owner_added to_type (λ w. 7) silent reset_extra_data untold add_device remove_device)
      (owner_key to_type (λ w. 7) silent reset_extra_data untold add_device remove_device)
      (owner_removed to_type (λ w. 7) silent reset_extra_data untold add_device remove_device)
      (IsSound listed) (in_list listed)
      (manager-IsOwner listed to_type (λ w. 7) silent reset_extra_data untold add_device
        remove_device library)
      one_client one_device 6 mouse_addr connected mouse_addr-is-real

do_server_receive_lem_example :
    Returns (Received (IsSound listed) (in_list listed) one_client 0 true) (
      do_server_receive
        (owner_added to_type (λ w. 7) silent reset_extra_data untold add_device remove_device)
        (owner_key to_type (λ w. 7) silent reset_extra_data untold add_device remove_device)
        (owner_removed to_type (λ w. 7) silent reset_extra_data untold add_device remove_device)
        one_client
        one_device
        0
        true
        (removal press))
do_server_receive_lem_example =
    do_server_receive_lem
      (owner_added to_type (λ w. 7) silent reset_extra_data untold add_device remove_device)
      (owner_key to_type (λ w. 7) silent reset_extra_data untold add_device remove_device)
      (owner_removed to_type (λ w. 7) silent reset_extra_data untold add_device remove_device)
      (IsSound listed) (in_list listed)
      (manager-IsOwner listed to_type (λ w. 7) silent reset_extra_data untold add_device
        remove_device library)
      one_client one_device 0 true (removal press) (attached 0 5) connected refl (λ _. refl)

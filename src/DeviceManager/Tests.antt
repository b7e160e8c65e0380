-- ===== src/DeviceManager/Tests.antt =====
-- A manager with one keyboard, one window and one listener.
use stmm_input_bt.Base.{
  zero, suc, ◌<◌, Bool, is_some, ℕ, ◌≡◌, refl, true, [], ◌∷◌, none, some, get_elem?, arith, Returns,
}
use stmm_input_bt.KeyPacket.{key_press}
use stmm_input_bt.DeviceManager.State.{
  KeysDevice, WindowData, DeviceManager, reset_extra_data, find_pressed, get_device,
  is_key_canceled,
}
use stmm_input_bt.DeviceManager.Keys.{key_event}
use stmm_input_bt.DeviceManager.Devices.{on_manager_key, deselect_accessor, on_device_removed}
use stmm_input_bt.DeviceManager.Views.{Log, keep_event, View, view}
use stmm_input_bt.DeviceManager.Cancel.{IsHeard, Untold, IsCancelable}
use stmm_input_bt.DeviceManager.Press.{Handled}
use stmm_input_bt.DeviceManager.OnKey.{on_manager_key_lem}
use stmm_input_bt.DeviceManager.Deselect.{Pending, deselect_accessor_lem}
use stmm_input_bt.DeviceManager.Remove.{on_device_removed_lem}

abbrev idle_keyboard : KeysDevice
idle_keyboard = record { has_owner = true; pressed_keys = [] }

abbrev window : WindowData
window = record { accessor = some 0; is_enabled = true }

abbrev quiet : DeviceManager Log
quiet = record {
  devices = some idle_keyboard ∷ [];
  gtk_windows = (0, 0) ∷ [];
  window_data = window ∷ [];
  selected = some 0;
  canceling_nested_depth = 0;
  key_events_enabled = true;
  listeners = (record { added_time_stamp = 0; canceled_keys = [] }) ∷ [];
  world = [];
}

quiet-IsHeard : IsHeard quiet
unfolding get_device view find_pressed
quiet-IsHeard zero zero k v seen = ground arith
quiet-IsHeard zero (suc i) k v seen = ground arith
quiet-IsHeard (suc j) i k v seen = absurd (ground arith)

selected_window :
    (w : ℕ)
    → some 0 ≡ some w
    → (found : WindowData) × (a : ℕ) × (get_elem? (window ∷ []) w ≡ some found)
      × (found.accessor ≡ some a)
selected_window zero h = (window, 0, refl, refl)
selected_window (suc w) h = absurd (ground arith)

on_manager_key_lem_example :
    Returns
      (λ (r : DeviceManager Log × Bool).
        IsHeard r.0 × (is_some quiet.selected ≡ true → Handled 0 key_press 30 r.0))
      (on_manager_key keep_event 0 key_press 30 5 quiet)
unfolding get_device
on_manager_key_lem_example =
    on_manager_key_lem 0 key_press 30 5 idle_keyboard quiet refl refl selected_window quiet-IsHeard

-- The keyboard with key 30 held.
abbrev held_keyboard : KeysDevice
held_keyboard = record { has_owner = true; pressed_keys = (30, 5) ∷ [] }

abbrev held : DeviceManager Log
held = record quiet {
  devices = some held_keyboard ∷ [];
  world = (0, key_event 0 key_press 30 (some 0)) ∷ [];
}

held-IsHeard : IsHeard held
unfolding get_device view find_pressed
held-IsHeard zero zero k v seen = ground arith
held-IsHeard zero (suc i) k v seen = ground arith
held-IsHeard (suc j) i k v seen = absurd (ground arith)

held-IsCancelable : IsCancelable 0 held_keyboard held
unfolding get_device
held-IsCancelable = record {
  at = refl;
  owned = refl;
  enabled = refl;
  w = 0;
  window = window;
  selected_at = refl;
  window_at = refl;
}

held-Untold : (d : ℕ) → Untold d held
unfolding view is_key_canceled
held-Untold d zero k stamp device v at found seen = ground arith
held-Untold d (suc j) k stamp device v at found seen = absurd (ground arith)

held_can : (d : ℕ) → d < 1 → (device : KeysDevice) × IsCancelable d device held
held_can zero h = (held_keyboard, held-IsCancelable)
held_can (suc d) h = absurd (omega arith)

held-Pending : Pending 1 0 held
held-Pending = record {
  can = λ d low high. held_can d (omega arith);
  untold = λ d low high. held-Untold d;
  disjoint = λ d e k s t one other low less high at there. absurd (omega arith);
}

deselect_accessor_lem_example :
    Returns
      (λ m'.
        IsHeard m'
        × (m'.selected ≡ none)
        × ((d : ℕ) (device : KeysDevice)
            → get_device d m' ≡ some device
            → device.pressed_keys ≡ []))
      (deselect_accessor keep_event reset_extra_data held)
deselect_accessor_lem_example =
    deselect_accessor_lem reset_extra_data (λ m. refl) held held-Pending held-IsHeard

on_device_removed_lem_example :
    Returns
      (λ m'.
        IsHeard m'
        × (get_device 0 m' ≡ none)
        × ((j k : ℕ) (v : View) → view j 0 k m' ≡ some v → v.presses ≡ v.releases))
      (on_device_removed keep_event reset_extra_data
        (λ b i m. some m)
        (λ i log. (log, true))
        (λ i log. (log, true))
        0
        held)
on_device_removed_lem_example =
    on_device_removed_lem reset_extra_data (λ m. refl) (λ b i m. some m) (λ i log. (log, true))
      (λ i log. (log, true)) 0 held_keyboard held (λ m'. refl) (λ log. refl) held-IsCancelable
      (held-Untold 0) held-IsHeard

-- ===== src/DeviceManager/Remove.antt =====
-- btgtkdevicemanager.cc, `onDeviceRemoved`, and a key that a listener was already told is canceled.
use stmm_input_bt.Base.{
  subst, ltb, ◌>>◌, assert, ℕ, ◌+◌, ◌≡◌, refl, sym, ap, ◌∙◌, Bool, true, false, [], Option, none,
  some, length, get_elem?-set_self, get_elem?-set_ne, set, if◌then◌else◌, ◌>>=◌, arith, Returns,
  Returns->>=, ℕ_discrete,
}
use stmm_input_bt.DeviceManager.State.{
  KeysDevice, DeviceManager, reset_extra_data, find_pressed, get_device,
}
use stmm_input_bt.DeviceManager.Keys.{cancel_selected_accessor_keys}
use stmm_input_bt.DeviceManager.Devices.{
  enter_canceling, leave_canceling, cancel_device_keys, on_device_removed,
}
use stmm_input_bt.DeviceManager.Views.{Log, keep_event, View, view}
use stmm_input_bt.DeviceManager.Cancel.{
  held_in, held_by, holds, IsHeard, Untold, Canceled, IsCancelable,
  cancel_selected_accessor_keys_lem, get_device-same, get_device_bound,
}
use stmm_input_bt.DeviceManager.Leave.{leave_canceling-IsHeard, leave_canceling-devices}
use stmm_input_bt.DeviceManager.Deselect.{entered-IsHeard}

IsCancelable-enter :
    (d : ℕ) (device : KeysDevice) (m : DeviceManager Log)
    → IsCancelable d device m
    → IsCancelable d device (enter_canceling m)
unfolding get_device
IsCancelable-enter d device m can = record {
  at = can.at;
  owned = can.owned;
  enabled = can.enabled;
  w = can.w;
  window = can.window;
  selected_at = can.selected_at;
  window_at = can.window_at;
}

Untold-enter : (d : ℕ) (m : DeviceManager Log) → Untold d m → Untold d (enter_canceling m)
unfolding get_device view
Untold-enter d m h = h

-- The listeners have heard as they should, and the device is there with no key pressed.
abbrev pub Emptied : ℕ → DeviceManager Log → Type 0
Emptied d m =
    IsHeard m × (device : KeysDevice) × (get_device d m ≡ some device) × (device.pressed_keys ≡ [])

-- `cancelDeviceKeys`
pub cancel_device_keys_lem :
    (reset_all : DeviceManager Log → DeviceManager Log)
    → ((m : DeviceManager Log) → reset_all m ≡ reset_extra_data m)
    → (d : ℕ) (device : KeysDevice) (m : DeviceManager Log) → IsCancelable d device m
    → Untold d m
    → IsHeard m
    → Returns (Emptied d) (cancel_device_keys keep_event reset_all d m)
unfolding cancel_device_keys
cancel_device_keys_lem reset_all resets d device m can untold h =
    let inner = enter_canceling m in
    Returns->>=
      (λ m'.
        Canceled d device.pressed_keys inner m' × (IsHeard inner → Untold d inner → IsHeard m'))
      (Emptied d) (cancel_selected_accessor_keys keep_event d inner)
      (λ m'. some (leave_canceling reset_all m'))
      (cancel_selected_accessor_keys_lem d device inner (IsCancelable-enter d device m can))
      (λ m' c.
        let (device', at) = c.0.present in
        (
          leave_canceling-IsHeard reset_all resets m'
              (c.1 (entered-IsHeard m h) (Untold-enter d m untold)),
          device',
          get_device-same d m' (leave_canceling reset_all m')
                (leave_canceling-devices reset_all resets m')
              ∙ at,
          c.0.emptied device' at,
        ))

removed-gone :
    (d : ℕ) (m : DeviceManager Log)
    → Emptied d m
    → get_device d (record m { devices = set m.devices d none }) ≡ none
unfolding get_device
removed-gone d m (h, device, at, empty) =
    rw (get_elem?-set_self m.devices d none (get_device_bound d device m at)) refl

-- A slot of a device with no key pressed may be made empty.
removed-IsHeard :
    (d : ℕ) (m : DeviceManager Log)
    → Emptied d m
    → IsHeard (record m { devices = set m.devices d none })
unfolding get_device view find_pressed
removed-IsHeard d m (h, device, at, empty) j i k v seen =
    let m' = record m { devices = set m.devices d none } in
    let balance = h j i k v seen in
    elim (ℕ_discrete d i) [
      | yes here ↦
          let gone : holds v.added i k m' ≡ false =
            ap (held_by v.added k)
              (ap (λ n. get_device n m') (sym here) ∙ removed-gone d m (h, device, at, empty)) in
          let idle : holds v.added i k m ≡ false =
            ap (held_by v.added k) (ap (λ n. get_device n m) (sym here) ∙ at)
            ∙ ap (held_in v.added k) empty in
          rw gone (subst (λ b. v.presses ≡ v.releases + (if b then 1 else 0)) idle balance)
      | no other ↦
          let theirs : get_device i m' ≡ get_device i m =
            rw (get_elem?-set_ne m.devices d i none other) refl in
          let same : holds v.added i k m' ≡ holds v.added i k m = ap (held_by v.added k) theirs in
          rw same balance
    ]

-- What `onDeviceRemoved` does after the canceling.
removed_after :
    (Bool → ℕ → DeviceManager Log → Option (DeviceManager Log))
    → (ℕ → Log → Log × Bool)
    → ℕ
    → DeviceManager Log
    → Option (DeviceManager Log)
removed_after send_device_mgmt remove_device d m' = do
  device' ← get_device d m'
  let (world, removed) = remove_device d m'.world
  assert removed
  send_device_mgmt false d (record m' { devices = set m'.devices d none; world = world })

removed_after_lem :
    (send_device_mgmt : Bool → ℕ → DeviceManager Log → Option (DeviceManager Log))
    (remove_device : ℕ → Log → Log × Bool) (d : ℕ) (m : DeviceManager Log)
    → ((m' : DeviceManager Log) → send_device_mgmt false d m' ≡ some m')
    → ((log : Log) → remove_device d log ≡ (log, true))
    → Emptied d m
    → removed_after send_device_mgmt remove_device d m
      ≡ some (record m { devices = set m.devices d none })
unfolding removed_after
removed_after_lem send_device_mgmt remove_device d m sent taken (h, device, at, empty) =
    rw (at, taken m.world) (sent (record m { devices = set m.devices d none }))

-- `onDeviceRemoved` of a device with its owner, while key events are enabled and a window is selected,
-- where no listener was told of its keys before, with a library that removes the device and resets the
-- listeners' data, and listeners that do nothing more: it returns, the device is gone, and each
-- listener has heard as many releases as presses of each key of it.
pub on_device_removed_lem :
    (reset_all : DeviceManager Log → DeviceManager Log)
    → ((m : DeviceManager Log) → reset_all m ≡ reset_extra_data m)
    → (send_device_mgmt : Bool → ℕ → DeviceManager Log → Option (DeviceManager Log))
      (add_device remove_device : ℕ → Log → Log × Bool) (d : ℕ) (device : KeysDevice)
      (m : DeviceManager Log)
    → ((m' : DeviceManager Log) → send_device_mgmt false d m' ≡ some m')
    → ((log : Log) → remove_device d log ≡ (log, true))
    → IsCancelable d device m
    → Untold d m
    → IsHeard m
    → Returns
        (λ m'.
          IsHeard m'
          × (get_device d m' ≡ none)
          × ((j k : ℕ) (v : View) → view j d k m' ≡ some v → v.presses ≡ v.releases))
        (on_device_removed keep_event reset_all send_device_mgmt add_device remove_device d m)
unfolding on_device_removed removed_after
on_device_removed_lem reset_all resets send_device_mgmt add_device remove_device d device m sent
      taken can untold h =
    let inside : ltb d (length m.devices) ≡ true =
      ground (arith, get_device_bound d device m can.at) in
    rw (inside, can.at)
      (Returns->>= (Emptied d)
        (λ m'.
          IsHeard m'
          × (get_device d m' ≡ none)
          × ((j k : ℕ) (v : View) → view j d k m' ≡ some v → v.presses ≡ v.releases))
        (cancel_device_keys keep_event reset_all d m)
        (removed_after send_device_mgmt remove_device d)
        (cancel_device_keys_lem reset_all resets d device m can untold h)
        (λ m' emptied.
          let heard = removed-IsHeard d m' emptied in
          let gone = removed-gone d m' emptied in
          rw (removed_after_lem send_device_mgmt remove_device d m' sent taken emptied) (
            heard,
            gone,
            λ j k v seen.
                subst (λ b. v.presses ≡ v.releases + (if b then 1 else 0))
                  (ap (held_by v.added k) gone) (heard j d k v seen)
                ∙ omega arith,
          )))

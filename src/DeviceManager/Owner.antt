-- ===== src/DeviceManager/Owner.antt =====
-- btgtkdevicemanager.cc: what the backend relies on. `onDeviceAdded`, `onDeviceRemoved` and `onBlueKey`
-- return, and keep the slots in step with the library's list of devices.
use stmm_input_bt.Base.{
  ℕ, ◌-◌, ◌<◌, ◌≡◌, refl, sym, ap, ◌∙◌, Bool, true, false, Option, none, some, List, length,
  get_elem?, get_elem?_total, [], set, ltb, ◌==◌, if◌then◌else◌, ◌>>=◌, ◌>>◌, assert, arith,
  Returns, Returns->>=, Returns-weaken, Option-cases, Bool-cases, inl, inr,
}
use stmm_input_bt.DeviceManager.State.{KeysDevice, KeyEvent, DeviceManager, get_device}
use stmm_input_bt.DeviceManager.Keys.{cancel_selected_accessor_keys}
use stmm_input_bt.DeviceManager.Devices.{
  enter_canceling, leave_canceling, cancel_device_keys, on_device_added, on_device_removed,
}
use stmm_input_bt.DeviceManager.Cancel.{get_device_bound}
use stmm_input_bt.DeviceManager.Alike.{
  Alike, Alike-refl, Alike-trans, cancel_selected_accessor_keys-Alike,
}
use stmm_input_bt.DeviceManager.Slots.{
  pointer_at, room_for, room_for-pointer, room_for-bound, set_slot-owner, owner_at,
}
use stmm_input_bt.DeviceManager.Sound.{IsSound, Alike-IsSound, present, Relisted, expected}

-- The library, as far as the manager relies on it, and listeners that leave the devices alone.
-- `listed` are the devices in the library's own list.
pub record IsLibrary {W : Type 0} (listed : ℕ → W → Bool)
    (call_if : ℕ → KeyEvent → DeviceManager W → Option (DeviceManager W))
    (reset_all : DeviceManager W → DeviceManager W)
    (send_device_mgmt : Bool → ℕ → DeviceManager W → Option (DeviceManager W))
    (add_device remove_device : ℕ → W → W × Bool) : Type 0 where
  pub calm :
      (l : ℕ) (event : KeyEvent) (m : DeviceManager W)
      → Returns (Alike listed m) (call_if l event m)
  pub resets : (m : DeviceManager W) → Alike listed m (reset_all m)
  pub tells :
      (b : Bool) (i : ℕ) (m : DeviceManager W) → Returns (Alike listed m) (send_device_mgmt b i m)
  pub adds :
      (i : ℕ) (w : W)
      → listed i w ≡ false
      → ((add_device i w).1 ≡ true)
        × ((j : ℕ) → listed j (add_device i w).0 ≡ (if i == j then true else listed j w))
  pub removes :
      (i : ℕ) (w : W)
      → listed i w ≡ true
      → ((remove_device i w).1 ≡ true)
        × ((j : ℕ) → listed j (remove_device i w).0 ≡ (if i == j then false else listed j w))

module _ {W : Type 0} (listed : ℕ → W → Bool)
    (call_if : ℕ → KeyEvent → DeviceManager W → Option (DeviceManager W))
    (reset_all : DeviceManager W → DeviceManager W)
    (send_device_mgmt : Bool → ℕ → DeviceManager W → Option (DeviceManager W))
    (add_device remove_device : ℕ → W → W × Bool)
    (library : IsLibrary listed call_if reset_all send_device_mgmt add_device remove_device) where
  leave_canceling-Alike : (m : DeviceManager W) → Alike listed m (leave_canceling reset_all m)
  unfolding leave_canceling get_device
  leave_canceling-Alike m =
      let m' : DeviceManager W = record m {
        canceling_nested_depth = m.canceling_nested_depth - 1;
      } in
      elim (Bool-cases (m'.canceling_nested_depth == 0)) [
        | inl outermost ↦ rw outermost (library.resets m')
        | inr nested ↦ rw nested (Alike-refl listed m)
      ]

  cancel_device_keys-Alike :
      (i : ℕ) (m : DeviceManager W)
      → IsSound listed m
      → listed i m.world ≡ true
      → Returns (Alike listed m) (cancel_device_keys call_if reset_all i m)
  unfolding cancel_device_keys get_device
  cancel_device_keys-Alike i m v here =
      let (device, at, owned) = present listed i m v here in
      let inner = enter_canceling m in
      Returns->>= (Alike listed inner) (Alike listed m)
        (cancel_selected_accessor_keys call_if i inner) (λ m'. some (leave_canceling reset_all m'))
        (cancel_selected_accessor_keys-Alike listed call_if library.calm i device inner at
          (λ w selected. let (window, a, there, has) = v.windows w selected in rw there refl))
        (λ m' h.
          Alike-trans listed m m' (leave_canceling reset_all m') h (leave_canceling-Alike m'))

  -- A slot that is written to, with what the library does to its list.
  written-Relisted :
      (i : ℕ) (b : Bool) (slot : Option KeysDevice) (devices : List (Option KeysDevice)) (world : W)
      (m : DeviceManager W)
      → IsSound listed m
      → i < length devices
      → ((j : ℕ) → pointer_at devices j ≡ pointer_at m.devices j)
      → owner_at slot ≡ expected b
      → ((j : ℕ) → listed j world ≡ (if i == j then b else listed j m.world))
      → Relisted listed i b m (record m { devices = set devices i slot; world = world })
  written-Relisted i b slot devices world m v inside same fits lists = (
    record {
      owners = λ j.
          set_slot-owner i j slot devices world m inside same ∙ (elim (Bool-cases (i == j)) [
            | inl here ↦ ground (arith, lists j, fits)
            | inr other ↦ ground (arith, lists j, v.owners j)
          ]);
      windows = v.windows;
    },
    lists,
  )

  -- The listeners are told.
  told-Relisted :
      (i : ℕ) (b added : Bool) (m m' : DeviceManager W)
      → Relisted listed i b m m'
      → Returns (Relisted listed i b m) (send_device_mgmt added i m')
  told-Relisted i b added m m' h =
      Returns-weaken (Alike listed m') (Relisted listed i b m) (send_device_mgmt added i m')
        (library.tells added i m')
        (λ m'' k. (Alike-IsSound listed m' m'' h.0 k, λ j. k.4 j ∙ h.1 j))

  free_slot :
      (i : ℕ) (m : DeviceManager W)
      → IsSound listed m
      → listed i m.world ≡ false
      → get_elem? (room_for i m.devices) i ≡ some none
  unfolding get_device pointer_at
  free_slot i m v free =
      let (slot, at) = get_elem?_total (room_for i m.devices) i (room_for-bound i m.devices) in
      let owners = v.owners i in
      let same : pointer_at (room_for i m.devices) i ≡ get_device i m =
        room_for-pointer i i m.devices in
      let pointer : pointer_at (room_for i m.devices) i ≡ slot = rw at refl in
      elim (Option-cases slot) [
        | inl nothing ↦ at ∙ ap some nothing
        | inr (device, there) ↦
            let found : get_device i m ≡ some device = sym same ∙ pointer ∙ there in
            absurd (ground arith)
      ]

  -- `onDeviceAdded`
  pub on_device_added-Relisted :
      (i : ℕ) (m : DeviceManager W)
      → IsSound listed m
      → listed i m.world ≡ false
      → Returns
          (Relisted listed i true m)
          (on_device_added call_if reset_all send_device_mgmt add_device remove_device i m)
  unfolding on_device_added
  on_device_added-Relisted i m v free =
      let (added, lists) = library.adds i m.world free in
      let new : Option KeysDevice = some (record { has_owner = true; pressed_keys = [] }) in
      rw (free_slot i m v free, added)
        (told-Relisted i true true m
          (record m {
            devices = set (room_for i m.devices) i new;
            world = (add_device i m.world).0;
          })
          (written-Relisted i true new (room_for i m.devices) (add_device i m.world).0 m v
            (room_for-bound i m.devices) (λ j. room_for-pointer i j m.devices) refl lists))

  -- What `onDeviceRemoved` does after the canceling.
  abbrev removed_after : ℕ → DeviceManager W → Option (DeviceManager W)
  removed_after i m' = do
    device' ← get_device i m'
    let (world, removed) = remove_device i m'.world
    assert removed
    send_device_mgmt false i (record m' { devices = set m'.devices i none; world = world })

  removed_after-Relisted :
      (i : ℕ) (m : DeviceManager W)
      → IsSound listed m
      → listed i m.world ≡ true
      → Returns (Relisted listed i false m) (removed_after i m)
  unfolding get_device pointer_at
  removed_after-Relisted i m v here =
      let (device, at, owned) = present listed i m v here in
      let (removed, lists) = library.removes i m.world here in
      rw (at, removed)
        (told-Relisted i false false m
          (record m { devices = set m.devices i none; world = (remove_device i m.world).0 })
          (written-Relisted i false none m.devices (remove_device i m.world).0 m v
            (get_device_bound i device m at) (λ j. refl) refl lists))

  -- `onDeviceRemoved`
  pub on_device_removed-Relisted :
      (i : ℕ) (m : DeviceManager W)
      → IsSound listed m
      → listed i m.world ≡ true
      → Returns
          (Relisted listed i false m)
          (on_device_removed call_if reset_all send_device_mgmt add_device remove_device i m)
  unfolding on_device_removed
  on_device_removed-Relisted i m v here =
      let (device, at, owned) = present listed i m v here in
      let inside : ltb i (length m.devices) ≡ true =
        ground (arith, get_device_bound i device m at) in
      rw (inside, at)
        (Returns->>= (Alike listed m) (Relisted listed i false m)
          (cancel_device_keys call_if reset_all i m) (removed_after i)
          (cancel_device_keys-Alike i m v here)
          (λ m' h.
            Returns-weaken (Relisted listed i false m') (Relisted listed i false m)
              (removed_after i m')
              (removed_after-Relisted i m' (Alike-IsSound listed m m' v h) (h.4 i ∙ here))
              (λ m'' k. (k.0, λ j. k.1 j ∙ ap (λ b. if i == j then false else b) (h.4 j)))))

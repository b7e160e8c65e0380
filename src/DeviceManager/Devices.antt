-- ===== src/DeviceManager/Devices.antt =====
-- btgtkdevicemanager.cc: the devices, as the backend adds and removes them and hands over their keys,
-- and the cancelling of pressed keys.
use stmm_input_bt.Base.{
  ℕ, zero, suc, ◌+◌, ◌-◌, Bool, true, false, not, List, [], ◌++◌, Option, none, some, length,
  get_elem?, set, replicate, ltb, leb, ◌==◌, if◌then◌else◌, ◌>>=◌, ◌>>◌, assert, is_some,
}
use stmm_input_bt.KeyPacket.{KeyInputType}
use stmm_input_bt.DeviceManager.State.{KeysDevice, KeyEvent, DeviceManager, get_device}
use stmm_input_bt.DeviceManager.Keys.{
  on_blue_key, cancel_selected_accessor_keys, finalize_listener_of,
}

-- `std::vector::resize` with null pointers, to a size that is not smaller.
abbrev pub grow : ℕ → List (Option KeysDevice) → List (Option KeysDevice)
grow size devices = devices ++ replicate (size - length devices) none

module _ {W : Type 0} where
  abbrev pub enter_canceling : DeviceManager W → DeviceManager W
  enter_canceling m = record m { canceling_nested_depth = m.canceling_nested_depth + 1 }

  -- `--m_nCancelingNestedDepth`, and the reset at its end, which is the library's
  -- `resetExtraDataOfAllListeners`.
  unfoldable pub leave_canceling :
      (DeviceManager W → DeviceManager W) → DeviceManager W → DeviceManager W
  leave_canceling reset_all m =
      let m' = record m { canceling_nested_depth = m.canceling_nested_depth - 1 } in
      if m'.canceling_nested_depth == 0 then reset_all m' else m'

-- The callback of a listener is `call_if`.
module _ {W : Type 0} (call_if : ℕ → KeyEvent → DeviceManager W → Option (DeviceManager W)) where
  -- `onBlueKey`
  unfoldable pub on_manager_key :
      ℕ → KeyInputType → ℕ → ℕ → DeviceManager W → Option (DeviceManager W × Bool)
  on_manager_key i type key stamp m = do
    assert (ltb i (length m.devices))
    elim m.selected [
      | none ↦ some (m, true)
      | some w ↦ do device ← get_device i m; on_blue_key call_if i type key w stamp m
    ]

  -- The loop of `finalizeListener`, over `n` devices from the one in slot `i` on.
  unfoldable pub finalize_devices : ℕ → ℕ → ℕ → DeviceManager W → Option (DeviceManager W)
  finalize_devices zero l i m = some m
  finalize_devices (suc n) l i m = do
    m' ← finalize_listener_of call_if l i m
    finalize_devices n l (suc i) m'

  -- The loop of `deselectAccessor`, over `n` devices from the one in slot `i` on.
  unfoldable pub cancel_devices : ℕ → ℕ → DeviceManager W → Option (DeviceManager W)
  cancel_devices zero i m = some m
  cancel_devices (suc n) i m = do
    m' ← cancel_selected_accessor_keys call_if i m
    cancel_devices n (suc i) m'

-- And the library's `resetExtraDataOfAllListeners`.
module _ {W : Type 0} (call_if : ℕ → KeyEvent → DeviceManager W → Option (DeviceManager W))
    (reset_all : DeviceManager W → DeviceManager W) where
  -- `cancelDeviceKeys`
  unfoldable pub cancel_device_keys : ℕ → DeviceManager W → Option (DeviceManager W)
  cancel_device_keys i m = do
    m' ← cancel_selected_accessor_keys call_if i (enter_canceling m)
    some (leave_canceling reset_all m')

  -- `finalizeListener`
  unfoldable pub finalize_listener : ℕ → DeviceManager W → Option (DeviceManager W)
  unfolding finalize_devices
  finalize_listener l m = do
    m' ← finalize_devices call_if (length m.devices) l 0 (enter_canceling m)
    some (leave_canceling reset_all m')

  -- `deselectAccessor`
  unfoldable pub deselect_accessor : DeviceManager W → Option (DeviceManager W)
  unfolding cancel_devices
  deselect_accessor m = do
    m' ← cancel_devices call_if (length m.devices) 0 (enter_canceling m)
    some (leave_canceling reset_all (record m' { selected = none }))

-- The callback of a listener; the listeners' being told of a device, that was added or else removed;
-- and the library's own list of devices, to which one is added or from which one is removed. A new
-- device gets its id from the library: that the id is no other device's, which a debug assertion of
-- `onDeviceAdded` tests, is part of the result of `add_device`.
module _ {W : Type 0} (call_if : ℕ → KeyEvent → DeviceManager W → Option (DeviceManager W))
    (reset_all : DeviceManager W → DeviceManager W)
    (send_device_mgmt : Bool → ℕ → DeviceManager W → Option (DeviceManager W))
    (add_device remove_device : ℕ → W → W × Bool) where
  -- `onDeviceAdded`
  unfoldable pub on_device_added : ℕ → DeviceManager W → Option (DeviceManager W)
  on_device_added i m = do
    let devices = if leb (length m.devices) i then grow (i + 1) m.devices else m.devices
    slot ← get_elem? devices i
    assert (not (is_some slot))
    let (world, added) = add_device i m.world
    assert added
    send_device_mgmt true i (record m {
      devices = set devices i (some (record { has_owner = true; pressed_keys = [] }));
      world = world;
    })

  -- `onDeviceRemoved`
  unfoldable pub on_device_removed : ℕ → DeviceManager W → Option (DeviceManager W)
  unfolding cancel_device_keys
  on_device_removed i m = do
    assert (ltb i (length m.devices))
    device ← get_device i m
    m' ← cancel_device_keys call_if reset_all i m
    device' ← get_device i m'
    let (world, removed) = remove_device i m'.world
    assert removed
    send_device_mgmt false i (record m' { devices = set m'.devices i none; world = world })

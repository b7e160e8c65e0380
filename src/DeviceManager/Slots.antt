-- ===== src/DeviceManager/Slots.antt =====
-- btgtkdevicemanager.cc: the slots of the devices, as `onDeviceAdded` and `onDeviceRemoved` write to them.
use stmm_input_bt.Base.{
  ℕ, zero, suc, ◌+◌, ◌-◌, ◌<◌, ◌≡◌, refl, Bool, Option, none, some, List, [], ◌∷◌, ◌++◌, replicate,
  length, get_elem?, set, leb, ◌==◌, if◌then◌else◌, ◌>>=◌, arith, ℕ_discrete, length-append,
  length-replicate, get_elem?-set_self, get_elem?-set_ne,
}
use stmm_input_bt.DeviceManager.State.{KeysDevice, DeviceManager, get_device}
use stmm_input_bt.DeviceManager.Devices.{grow}
use stmm_input_bt.DeviceManager.Alike.{owner_of}

-- A vector of pointers that has grown.
unfoldable pub pointer_at : List (Option KeysDevice) → ℕ → Option KeysDevice
pointer_at devices j = get_elem? devices j >>= λ slot. slot

pointer_at-replicate : (n j : ℕ) → pointer_at (replicate n none) j ≡ none
unfolding pointer_at
pointer_at-replicate zero j = refl
pointer_at-replicate (suc n) zero = refl
pointer_at-replicate (suc n) (suc j) = pointer_at-replicate n j

pointer_at-append :
    (devices : List (Option KeysDevice)) (n j : ℕ)
    → pointer_at (devices ++ replicate n none) j ≡ pointer_at devices j
unfolding pointer_at
pointer_at-append [] n j = pointer_at-replicate n j
pointer_at-append (device ∷ devices) n zero = refl
pointer_at-append (device ∷ devices) n (suc j) = pointer_at-append devices n j

-- The slots that `onDeviceAdded` writes to.
abbrev pub room_for : ℕ → List (Option KeysDevice) → List (Option KeysDevice)
room_for i devices = if leb (length devices) i then grow (i + 1) devices else devices

pub room_for-pointer :
    (i j : ℕ) (devices : List (Option KeysDevice))
    → pointer_at (room_for i devices) j ≡ pointer_at devices j
room_for-pointer i j devices = ground (arith, pointer_at-append devices (i + 1 - length devices) j)

pub room_for-bound : (i : ℕ) (devices : List (Option KeysDevice)) → i < length (room_for i devices)
room_for-bound i devices = ground (
  arith,
  length-append devices (replicate (i + 1 - length devices) none),
  length-replicate {A = Option KeysDevice} (i + 1 - length devices) none,
)

abbrev pub owner_at : Option KeysDevice → Option Bool
owner_at slot = do device ← slot; some device.has_owner

module _ {W : Type 0} where
  -- The owners of the slots after one is written to.
  pub set_slot-owner :
      (i j : ℕ) (slot : Option KeysDevice) (devices : List (Option KeysDevice)) (world : W)
      (m : DeviceManager W)
      → i < length devices
      → ((j : ℕ) → pointer_at devices j ≡ pointer_at m.devices j)
      → owner_of j (record m { devices = set devices i slot; world = world })
        ≡ (if i == j then owner_at slot else owner_of j m)
  unfolding get_device pointer_at
  set_slot-owner i j slot devices world m inside same = elim (ℕ_discrete i j) [
    | yes here ↦ ground (arith, get_elem?-set_self devices i slot inside)
    | no other ↦ ground (arith, get_elem?-set_ne devices i j slot other, same j)
  ]

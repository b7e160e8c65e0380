-- ===== src/DeviceManager/State.antt =====
-- The members of `BtGtkDeviceManager`, of its devices and window data, and of the listeners' data.
use stmm_input_bt.Base.{
  ℕ, Bool, false, ◌||◌, List, [], ◌∷◌, Option, none, some, get_elem?, set, ◌==◌, if◌then◌else◌,
  ◌>>=◌, map,
}
use stmm_input_bt.KeyPacket.{KeyInputType}

-- `BtKeysDevice`: whether it still has its owner, and `m_oPressedKeys` with the time stamps.
pub record KeysDevice : Type 0 where
  pub has_owner : Bool
  pub pressed_keys : List (ℕ × ℕ)

-- A listener: its `getAddedTimeStamp`, and the `BtGtkListenerExtraData`.
pub record Listener : Type 0 where
  pub added_time_stamp : ℕ
  pub canceled_keys : List ℕ

-- `GtkWindowData`; an accessor is its number, and `none` a null pointer.
pub record WindowData : Type 0 where
  pub accessor : Option ℕ
  pub is_enabled : Bool

-- A `KeyEvent` without its time. Its capability is that of the device in this slot.
pub record KeyEvent : Type 0 where
  pub key_type : KeyInputType
  pub key : ℕ
  pub accessor : Option ℕ
  pub device : ℕ

-- `devices` has the slots of `m_aBtDevices`, where a null pointer is `none`. `window_data` has all window
-- data that were made, `gtk_windows` is `m_aGtkWindowData` with a window and the index of its data,
-- and `selected` such an index. `world` is what else there is.
pub record DeviceManager (W : Type 0) : Type 0 where
  pub devices : List (Option KeysDevice)
  pub gtk_windows : List (ℕ × ℕ)
  pub window_data : List WindowData
  pub selected : Option ℕ
  pub canceling_nested_depth : ℕ
  pub key_events_enabled : Bool
  pub listeners : List Listener
  pub world : W

-- `m_oPressedKeys.find`
unfoldable pub find_pressed : ℕ → List (ℕ × ℕ) → Option ℕ
find_pressed key [] = none
find_pressed key ((other, stamp) ∷ rest) =
    let later = find_pressed key rest in if other == key then some stamp else later

-- `m_oPressedKeys.erase`
unfoldable pub erase_pressed : ℕ → List (ℕ × ℕ) → List (ℕ × ℕ)
erase_pressed key [] = []
erase_pressed key ((other, stamp) ∷ rest) =
    let others = erase_pressed key rest in if other == key then others else (other, stamp) ∷ others

-- `isKeyCanceled`
unfoldable pub is_key_canceled : ℕ → List ℕ → Bool
is_key_canceled key [] = false
is_key_canceled key (other ∷ rest) = other == key || is_key_canceled key rest

-- `reset` of `BtGtkListenerExtraData`
abbrev pub reset_listener : Listener → Listener
reset_listener listener = record listener { canceled_keys = [] }

module _ {W : Type 0} where
  unfoldable pub get_device : ℕ → DeviceManager W → Option KeysDevice
  get_device i m = do device ← get_elem? m.devices i; device

  abbrev pub set_device : ℕ → KeysDevice → DeviceManager W → DeviceManager W
  set_device i device m = record m { devices = set m.devices i (some device) }

  -- `setKeyCanceled`, of the listener at this place.
  abbrev pub set_key_canceled : ℕ → Listener → ℕ → DeviceManager W → DeviceManager W
  set_key_canceled l listener key m = record m {
    listeners =
        set m.listeners l (record listener { canceled_keys = key ∷ listener.canceled_keys });
  }

  -- What the library's `resetExtraDataOfAllListeners` is to do.
  abbrev pub reset_extra_data : DeviceManager W → DeviceManager W
  reset_extra_data m = record m { listeners = map reset_listener m.listeners }

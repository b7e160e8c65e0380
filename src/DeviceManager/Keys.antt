-- ===== src/DeviceManager/Keys.antt =====
-- btgtkkeysdevice.cc: how a key of a device goes to the listeners.
use stmm_input_bt.Base.{
  ℕ, zero, suc, Bool, true, false, not, ◌&&◌, List, [], ◌∷◌, Option, none, some, length, get_elem?,
  ltb, if◌then◌else◌, ◌>>=◌, ◌>>◌, assert, is_some,
}
use stmm_input_bt.KeyPacket.{KeyInputType, key_press, key_release_cancel, same_type}
use stmm_input_bt.DeviceManager.State.{
  KeyEvent, DeviceManager, find_pressed, erase_pressed, is_key_canceled, get_device, set_device,
  set_key_canceled,
}

abbrev pub key_event : ℕ → KeyInputType → ℕ → Option ℕ → KeyEvent
key_event i type key accessor = record {
  key_type = type;
  key = key;
  accessor = accessor;
  device = i;
}

-- The release of a key that is canceled.
abbrev pub cancel_event : ℕ → ℕ → Option ℕ → KeyEvent
cancel_event i key accessor = key_event i key_release_cancel key accessor

-- The callback of a listener: `handleEventCallIf` of the library's listener data.
module _ {W : Type 0} (call_if : ℕ → KeyEvent → DeviceManager W → Option (DeviceManager W)) where
  -- `sendKeyEventToListener`
  unfoldable pub send_to_listener : ℕ → ℕ → KeyEvent → DeviceManager W → Option (DeviceManager W)
  send_to_listener l stamp event m = do
    listener ← get_elem? m.listeners l
    if ltb stamp listener.added_time_stamp then some m else call_if l event m

  -- The loop of `onBlueKey` over `n` listeners from the one at `l` on.
  unfoldable pub send_to_all : ℕ → ℕ → ℕ → KeyEvent → DeviceManager W → Option (DeviceManager W)
  unfolding send_to_listener get_device find_pressed
  send_to_all zero l stamp event m = some m
  send_to_all (suc n) l stamp event m = do
    m' ← send_to_listener l stamp event m
    device ← get_device event.device m'
    let rest = send_to_all n (suc l) stamp event m'
    if same_type event.key_type key_press
          && not (is_some (find_pressed event.key device.pressed_keys))
        then some m'
        else rest

  -- `onBlueKey` of the device in slot `i`, for the window data at `w`; `stamp` is the new time stamp.
  unfoldable pub on_blue_key :
      ℕ → KeyInputType → ℕ → ℕ → ℕ → DeviceManager W → Option (DeviceManager W × Bool)
  unfolding send_to_all get_device find_pressed erase_pressed
  on_blue_key i type key w stamp m = do
    device ← get_device i m
    if not device.has_owner then some (m, false) else (do
      window ← get_elem? m.window_data w
      assert (is_some window.accessor)
      let event = key_event i type key window.accessor
      elim (find_pressed key device.pressed_keys) [
        | none ↦
            if same_type type key_press
            then (do
              m' ← send_to_all (length m.listeners) 0 stamp event (
                  set_device i (record device { pressed_keys = (key, stamp) ∷ device.pressed_keys })
                    m)
              some (m', true))
            else some (m, true)
        | some pressed_stamp ↦ if same_type type key_press then some (m, true) else (do
          m' ← send_to_all (length m.listeners) 0 pressed_stamp event (
              set_device i (record device { pressed_keys = erase_pressed key device.pressed_keys })
                m)
          some (m', true))
      ])

  -- A listener is told that a key is canceled, unless it was told before.
  unfoldable pub cancel_for_listener :
      ℕ → ℕ → ℕ → ℕ → Option ℕ → DeviceManager W → Option (DeviceManager W)
  unfolding send_to_listener is_key_canceled
  cancel_for_listener l i key stamp accessor m = do
    listener ← get_elem? m.listeners l
    if is_key_canceled key listener.canceled_keys
        then some m
        else send_to_listener l stamp (cancel_event i key accessor)
            (set_key_canceled l listener key m)

  -- The inner loop of `cancelSelectedAccessorKeys`, over `n` listeners from the one at `l` on.
  unfoldable pub cancel_for_all :
      ℕ → ℕ → ℕ → ℕ → ℕ → Option ℕ → DeviceManager W → Option (DeviceManager W)
  unfolding cancel_for_listener
  cancel_for_all zero l i key stamp accessor m = some m
  cancel_for_all (suc n) l i key stamp accessor m = do
    m' ← cancel_for_listener l i key stamp accessor m
    cancel_for_all n (suc l) i key stamp accessor m'

  -- Its outer loop, over the copy of the pressed keys.
  unfoldable pub cancel_keys :
      ℕ → List (ℕ × ℕ) → ℕ → Option ℕ → DeviceManager W → Option (DeviceManager W)
  unfolding cancel_for_all
  cancel_keys n [] i accessor m = some m
  cancel_keys n ((key, stamp) ∷ rest) i accessor m = do
    m' ← cancel_for_all n 0 i key stamp accessor m
    cancel_keys n rest i accessor m'

  -- `cancelSelectedAccessorKeys`
  unfoldable pub cancel_selected_accessor_keys : ℕ → DeviceManager W → Option (DeviceManager W)
  unfolding cancel_keys get_device
  cancel_selected_accessor_keys i m = do
    device ← get_device i m
    if not device.has_owner
        then some m
        else if not m.key_events_enabled
        then some m
        else elim m.selected [
          | none ↦ some m
          | some w ↦ do
            window ← get_elem? m.window_data w
            m' ← cancel_keys (length m.listeners) device.pressed_keys i window.accessor m
            device' ← get_device i m'
            some (set_device i (record device' { pressed_keys = [] }) m')
        ]

  -- The loop of `finalizeListener` over the copy of the pressed keys.
  unfoldable pub finalize_keys_of :
      ℕ → List (ℕ × ℕ) → ℕ → Option ℕ → DeviceManager W → Option (DeviceManager W)
  unfolding send_to_listener is_key_canceled
  finalize_keys_of l [] i accessor m = some m
  finalize_keys_of l ((key, stamp) ∷ rest) i accessor m = do
    listener ← get_elem? m.listeners l
    let skipped = finalize_keys_of l rest i accessor m
    if is_key_canceled key listener.canceled_keys then skipped else (do
      m' ←
          send_to_listener l stamp (cancel_event i key accessor) (set_key_canceled l listener key m)
      let more = finalize_keys_of l rest i accessor m'
      if is_some m'.selected then more else some m')

  -- `finalizeListener` of a device
  unfoldable pub finalize_listener_of : ℕ → ℕ → DeviceManager W → Option (DeviceManager W)
  unfolding finalize_keys_of get_device
  finalize_listener_of l i m = do
    device ← get_device i m
    if not device.has_owner
        then some m
        else if not m.key_events_enabled
        then some m
        else elim m.selected [
          | none ↦ some m
          | some w ↦ do
            window ← get_elem? m.window_data w
            finalize_keys_of l device.pressed_keys i window.accessor m
        ]

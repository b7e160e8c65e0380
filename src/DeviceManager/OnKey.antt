-- ===== src/DeviceManager/OnKey.antt =====
-- btgtkkeysdevice.cc, `onBlueKey`, and btgtkdevicemanager.cc, `onBlueKey`: a press or a release keeps what
-- the listeners heard in step with the pressed keys.
use stmm_input_bt.Base.{
  subst, ℕ, ◌≡◌, refl, sym, ◌∙◌, Bool, true, ◌∷◌, none, some, get_elem?, if◌then◌else◌, is_some,
  arith, Returns, Returns-weaken, Option-cases, Bool-cases, inl, inr,
}
use stmm_input_bt.KeyPacket.{KeyInputType, key_press, same_type}
use stmm_input_bt.DeviceManager.State.{
  KeysDevice, WindowData, DeviceManager, find_pressed, erase_pressed, get_device,
}
use stmm_input_bt.DeviceManager.Keys.{on_blue_key}
use stmm_input_bt.DeviceManager.Devices.{on_manager_key}
use stmm_input_bt.DeviceManager.Views.{Log, keep_event}
use stmm_input_bt.DeviceManager.Cancel.{IsHeard, get_device_bound}
use stmm_input_bt.DeviceManager.Press.{
  Turned, press-Turned, release-Turned, Handled, send_key, send_key_lem,
}

-- What `onBlueKey` does, by whether the key is pressed.
on_blue_key-cases :
    (i : ℕ) (type : KeyInputType) (key w stamp a : ℕ) (device : KeysDevice) (window : WindowData)
    (m : DeviceManager Log)
    → get_device i m ≡ some device
    → device.has_owner ≡ true
    → get_elem? m.window_data w ≡ some window
    → window.accessor ≡ some a
    → on_blue_key keep_event i type key w stamp m ≡ elim (find_pressed key device.pressed_keys) [
      | none ↦
          if same_type type key_press
          then send_key i type key stamp window.accessor
              (record device { pressed_keys = (key, stamp) ∷ device.pressed_keys })
              m
          else some (m, true)
      | some pressed_stamp ↦
          if same_type type key_press
          then some (m, true)
          else send_key i type key pressed_stamp window.accessor
              (record device { pressed_keys = erase_pressed key device.pressed_keys })
              m
    ]
unfolding on_blue_key
on_blue_key-cases i type key w stamp a device window m at owned window_at has =
    rw (at, owned, window_at, has) refl

repeated :
    (i : ℕ) (type : KeyInputType) (key : ℕ) (device : KeysDevice) (m : DeviceManager Log)
    → get_device i m ≡ some device
    → is_some (find_pressed key device.pressed_keys) ≡ same_type type key_press
    → IsHeard m
    → Handled i type key m
repeated i type key device m at same h = (
  h,
  λ other other_at. let e : some other ≡ some device = sym other_at ∙ at in ground (arith, same),
)

-- `onBlueKey`
pub on_blue_key_lem :
    (i : ℕ) (type : KeyInputType) (key w stamp a : ℕ) (device : KeysDevice) (window : WindowData)
    (m : DeviceManager Log)
    → get_device i m ≡ some device
    → device.has_owner ≡ true
    → get_elem? m.window_data w ≡ some window
    → window.accessor ≡ some a
    → IsHeard m
    → Returns
        (λ (r : DeviceManager Log × Bool). Handled i type key r.0)
        (on_blue_key keep_event i type key w stamp m)
on_blue_key_lem i type key w stamp a device window m at owned window_at has h =
    let cases = on_blue_key-cases i type key w stamp a device window m at owned window_at has in
    let pressing = record device { pressed_keys = (key, stamp) ∷ device.pressed_keys } in
    let releasing = record device { pressed_keys = erase_pressed key device.pressed_keys } in
    let unchanged : DeviceManager Log × Bool = (m, true) in
    elim (Option-cases (find_pressed key device.pressed_keys)) [
      | inl free ↦ elim (Bool-cases (same_type type key_press)) [
        | inl press ↦
            let e : on_blue_key keep_event i type key w stamp m
                ≡ send_key i type key stamp window.accessor pressing m =
              ground (arith, cases) in
            rw e (
              send_key_lem i type key stamp window.accessor device pressing m at
                (subst (λ b. Turned b key stamp device.pressed_keys pressing.pressed_keys)
                  (sym press) (press-Turned key stamp device.pressed_keys free))
                h)
        | inr release ↦
            let e : on_blue_key keep_event i type key w stamp m ≡ some unchanged =
              ground (arith, cases) in
            rw e (repeated i type key device m at (ground (arith, free, release)) h)
      ]
      | inr (pressed_stamp, found) ↦ elim (Bool-cases (same_type type key_press)) [
        | inl press ↦
            let e : on_blue_key keep_event i type key w stamp m ≡ some unchanged =
              ground (arith, cases) in
            rw e (repeated i type key device m at (ground (arith, found, press)) h)
        | inr release ↦
            let e : on_blue_key keep_event i type key w stamp m
                ≡ send_key i type key pressed_stamp window.accessor releasing m =
              ground (arith, cases) in
            rw e (
              send_key_lem i type key pressed_stamp window.accessor device releasing m at
                (subst (λ b. Turned b key pressed_stamp device.pressed_keys releasing.pressed_keys)
                  (sym release) (release-Turned key pressed_stamp device.pressed_keys found))
                h)
      ]
    ]

-- With listeners that only note what they hear, and so never call the manager back: `onBlueKey` of the
-- manager, for the key `key` of the device in slot `i`, which has its owner, where
-- the window data that is selected, if there is one, has its accessor: it returns, the listeners have
-- heard as they should, and while a window is selected the key is pressed after it if it was a press,
-- and is not pressed if it was a release.
pub on_manager_key_lem :
    (i : ℕ) (type : KeyInputType) (key stamp : ℕ) (device : KeysDevice) (m : DeviceManager Log)
    → get_device i m ≡ some device
    → device.has_owner ≡ true
    → ((w : ℕ)
        → m.selected ≡ some w
        → (window : WindowData) × (a : ℕ) × (get_elem? m.window_data w ≡ some window)
          × (window.accessor ≡ some a))
    → IsHeard m
    → Returns
        (λ (r : DeviceManager Log × Bool).
          IsHeard r.0 × (is_some m.selected ≡ true → Handled i type key r.0))
        (on_manager_key keep_event i type key stamp m)
unfolding on_manager_key
on_manager_key_lem i type key stamp device m at owned windows h =
    let inside = get_device_bound i device m at in
    elim (Option-cases m.selected) [
      | inl nothing ↦
          let unchanged : DeviceManager Log × Bool = (m, true) in
          let e : on_manager_key keep_event i type key stamp m ≡ some unchanged =
            ground (arith, inside) in
          rw e (h, λ selected. absurd (ground arith))
      | inr (w, selected) ↦
          let (window, a, window_at, has) = windows w selected in
          let e : on_manager_key keep_event i type key stamp m
              ≡ on_blue_key keep_event i type key w stamp m =
            ground (arith, inside, at) in
          rw e (
            Returns-weaken (λ (r : DeviceManager Log × Bool). Handled i type key r.0)
              (λ (r : DeviceManager Log × Bool).
                IsHeard r.0 × (is_some m.selected ≡ true → Handled i type key r.0))
              (on_blue_key keep_event i type key w stamp m)
              (on_blue_key_lem i type key w stamp a device window m at owned window_at has h)
              (λ r handled. (handled.0, λ any. handled)))
    ]

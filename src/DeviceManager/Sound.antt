-- ===== src/DeviceManager/Sound.antt =====
-- btgtkdevicemanager.cc: the slots are those of the library's list of devices. `onBlueKey` returns and
-- leaves them as they are.
use stmm_input_bt.Base.{
  ℕ, ◌≡◌, refl, sym, ap, ◌∙◌, Bool, true, Option, none, some, ◌∷◌, ◌⊎◌, length, get_elem?, ◌==◌,
  if◌then◌else◌, ◌>>=◌, arith, Returns, Returns->>=, Option-cases, Bool-cases, inl, inr,
}
use stmm_input_bt.KeyPacket.{KeyInputType, key_press, same_type}
use stmm_input_bt.DeviceManager.State.{
  KeysDevice, WindowData, KeyEvent, DeviceManager, find_pressed, erase_pressed, get_device,
  set_device,
}
use stmm_input_bt.DeviceManager.Keys.{key_event, send_to_all, on_blue_key}
use stmm_input_bt.DeviceManager.Devices.{on_manager_key}
use stmm_input_bt.DeviceManager.Alike.{
  owner_of, Alike, Alike-refl, Alike-trans, set_device-Alike, send_to_all-Alike, still_there,
}
use stmm_input_bt.DeviceManager.Cancel.{get_device_bound}

-- Slot `j` has a device, with its owner, if there is one in the library's list.
abbrev pub expected : Bool → Option Bool
expected b = if b then some true else none

module _ {W : Type 0} (listed : ℕ → W → Bool) where
  -- The slots are those of the library's list, and the selected window data has its accessor.
  pub record IsSound (m : DeviceManager W) : Type 0 where
    pub owners : (j : ℕ) → owner_of j m ≡ expected (listed j m.world)
    pub windows :
        (w : ℕ)
        → m.selected ≡ some w
        → (window : WindowData) × (a : ℕ) × (get_elem? m.window_data w ≡ some window)
          × (window.accessor ≡ some a)

  pub Alike-IsSound : (m m' : DeviceManager W) → IsSound m → Alike listed m m' → IsSound m'
  Alike-IsSound m m' v h = record {
    owners = λ j. h.3 j ∙ v.owners j ∙ ap expected (sym (h.4 j));
    windows = λ w selected. rw (h.1) (v.windows w (sym h.0 ∙ selected));
  }

  -- A listed device.
  pub present :
      (i : ℕ) (m : DeviceManager W)
      → IsSound m
      → listed i m.world ≡ true
      → (device : KeysDevice) × (get_device i m ≡ some device) × (device.has_owner ≡ true)
  present i m v here = elim (Option-cases (get_device i m)) [
    | inl gone ↦ let e = v.owners i in absurd (ground arith)
    | inr (device, at) ↦ let e = v.owners i in (device, at, ground arith)
  ]

  -- The list but for slot `i`.
  abbrev pub Relisted : ℕ → Bool → DeviceManager W → DeviceManager W → Type 0
  Relisted i b m m' =
      IsSound m' × ((j : ℕ) → listed j m'.world ≡ (if i == j then b else listed j m.world))

module _ {W : Type 0} (listed : ℕ → W → Bool)
    (call_if : ℕ → KeyEvent → DeviceManager W → Option (DeviceManager W))
    (calm : (l : ℕ) (event : KeyEvent) (m : DeviceManager W)
      → Returns (Alike listed m) (call_if l event m)) where
  -- The sending of a press or a release, and the result.
  abbrev send_key : KeyEvent → ℕ → KeysDevice → DeviceManager W → Option (DeviceManager W × Bool)
  send_key event stamp device' m = do
    m' ← send_to_all call_if (length m.listeners) 0 stamp event (set_device event.device device' m)
    some (m', true)

  abbrev pub AlikeAfter : DeviceManager W → DeviceManager W × Bool → Type 0
  AlikeAfter m r = Alike listed m r.0

  send_key-Alike :
      (event : KeyEvent) (stamp : ℕ) (device device' : KeysDevice) (m : DeviceManager W)
      → get_device event.device m ≡ some device
      → device'.has_owner ≡ device.has_owner
      → Returns (AlikeAfter m) (send_key event stamp device' m)
  send_key-Alike event stamp device device' m at same =
      let m' = set_device event.device device' m in
      let change : Alike listed m m' =
        set_device-Alike listed event.device device device' m at same in
      let (found, at', _) = still_there listed call_if calm event.device device m m' at change in
      Returns->>= (Alike listed m') (AlikeAfter m)
        (send_to_all call_if (length m.listeners) 0 stamp event m') (λ m''. some (m'', true))
        (send_to_all-Alike listed call_if calm (length m.listeners) 0 stamp event found m'
          (omega arith) at')
        (λ m''. Alike-trans listed m m' m'' change)

  -- `onBlueKey` of a device does nothing, or sends a press or a release.
  on_blue_key-cases :
      (i : ℕ) (type : KeyInputType) (key w stamp a : ℕ) (device : KeysDevice) (window : WindowData)
      (m : DeviceManager W)
      → get_device i m ≡ some device
      → device.has_owner ≡ true
      → get_elem? m.window_data w ≡ some window
      → window.accessor ≡ some a
      → (on_blue_key call_if i type key w stamp m ≡ some (m, true))
        ⊎ ((sent : ℕ) × (device' : KeysDevice) × (device'.has_owner ≡ device.has_owner)
            × (on_blue_key call_if i type key w stamp m
                ≡ send_key (key_event i type key window.accessor) sent device' m))
  unfolding on_blue_key
  on_blue_key-cases i type key w stamp a device window m at owned window_at has =
      let pressing : KeysDevice = record device {
        pressed_keys = (key, stamp) ∷ device.pressed_keys;
      } in
      let releasing : KeysDevice = record device {
        pressed_keys = erase_pressed key device.pressed_keys;
      } in
      elim (Option-cases (find_pressed key device.pressed_keys)) [
        | inl free ↦ elim (Bool-cases (same_type type key_press)) [
          | inl press ↦ inr (stamp, pressing, refl, ground (arith, at, window_at))
          | inr release ↦ inl (ground (arith, at, window_at))
        ]
        | inr (pressed_stamp, found) ↦ elim (Bool-cases (same_type type key_press)) [
          | inl press ↦ inl (ground (arith, at, window_at))
          | inr release ↦ inr (pressed_stamp, releasing, refl, ground (arith, at, window_at))
        ]
      ]

  -- `onBlueKey` of the manager
  pub on_manager_key-Alike :
      (i : ℕ) (type : KeyInputType) (key stamp : ℕ) (m : DeviceManager W)
      → IsSound listed m
      → listed i m.world ≡ true
      → Returns (AlikeAfter m) (on_manager_key call_if i type key stamp m)
  unfolding on_manager_key
  on_manager_key-Alike i type key stamp m v here =
      let (device, at, owned) = present listed i m v here in
      let inside = get_device_bound i device m at in
      let unchanged : DeviceManager W × Bool = (m, true) in
      elim (Option-cases m.selected) [
        | inl nothing ↦
            let e : on_manager_key call_if i type key stamp m ≡ some unchanged =
              ground (arith, inside) in
            rw e (Alike-refl listed m)
        | inr (w, selected) ↦
            let (window, a, window_at, has) = v.windows w selected in
            let e : on_manager_key call_if i type key stamp m
                ≡ on_blue_key call_if i type key w stamp m =
              ground (arith, inside, at) in
            elim (on_blue_key-cases i type key w stamp a device window m at owned window_at has) [
              | inl idle ↦ rw (e, idle) (Alike-refl listed m)
              | inr (sent, device', same, does) ↦
                  rw (e, does)
                    (send_key-Alike (key_event i type key window.accessor) sent device device' m at
                      same)
            ]
      ]

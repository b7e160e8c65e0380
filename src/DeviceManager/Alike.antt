-- ===== src/DeviceManager/Alike.antt =====
-- btgtkdevicemanager.cc, btgtkkeysdevice.cc: what the handling of a key and the canceling leave as it
-- is, whatever the listeners do that leave the devices and the windows alone.
use stmm_input_bt.Base.{
  ℕ, zero, suc, ◌+◌, ◌≤◌, ◌<◌, ◌≡◌, refl, sym, ◌∙◌, Bool, true, not, ◌&&◌, Option, some, List, [],
  ◌∷◌, length, length-set, get_elem?, get_elem?_total, ◌>>=◌, is_some, arith, Returns, Returns->>=,
  Returns-weaken, Option-cases, Bool-cases, inl, inr, ℕ_discrete, get_elem?-set_self,
  get_elem?-set_ne, get_elem?_bound,
}
use stmm_input_bt.KeyPacket.{key_press, same_type}
use stmm_input_bt.DeviceManager.State.{
  KeysDevice, KeyEvent, DeviceManager, find_pressed, is_key_canceled, get_device, set_device,
  set_key_canceled,
}
use stmm_input_bt.DeviceManager.Keys.{
  cancel_event, send_to_listener, send_to_all, cancel_for_listener, cancel_for_all, cancel_keys,
  cancel_selected_accessor_keys,
}

module _ {W : Type 0} where
  -- Whether there is a device in the slot, and if so whether it has its owner.
  abbrev pub owner_of : ℕ → DeviceManager W → Option Bool
  owner_of i m = do device ← get_device i m; some device.has_owner

-- `listed` are the devices in the library's own list.
module _ {W : Type 0} (listed : ℕ → W → Bool) where
  -- The windows, the slots of the devices and the library's list are the same.
  abbrev pub Alike : DeviceManager W → DeviceManager W → Type 0
  Alike m m' =
      (m'.selected ≡ m.selected)
      × (m'.window_data ≡ m.window_data)
      × (length m'.listeners ≡ length m.listeners)
      × ((j : ℕ) → owner_of j m' ≡ owner_of j m)
      × ((j : ℕ) → listed j m'.world ≡ listed j m.world)

  pub Alike-refl : (m : DeviceManager W) → Alike m m
  Alike-refl m = (refl, refl, refl, (λ j. refl), (λ j. refl))

  pub Alike-trans : (m m' m'' : DeviceManager W) → Alike m m' → Alike m' m'' → Alike m m''
  Alike-trans m m' m'' h k =
      (k.0 ∙ h.0, k.1 ∙ h.1, k.2 ∙ h.2, (λ j. k.3 j ∙ h.3 j), (λ j. k.4 j ∙ h.4 j))

  pub set_device-Alike :
      (i : ℕ) (device device' : KeysDevice) (m : DeviceManager W)
      → get_device i m ≡ some device
      → device'.has_owner ≡ device.has_owner
      → Alike m (set_device i device' m)
  unfolding get_device
  set_device-Alike i device device' m at same = (
    refl,
    refl,
    refl,
    λ j. elim (Option-cases (get_elem? m.devices i)) [
      | inl nothing ↦ absurd (ground arith)
      | inr (slot, there) ↦ elim (ℕ_discrete i j) [
        | yes here ↦ ground (
          arith,
          get_elem?-set_self m.devices i (some device') (get_elem?_bound m.devices i slot there),
        )
        | no other ↦ ground (arith, get_elem?-set_ne m.devices i j (some device') other)
      ]
    ],
    λ j. refl,
  )

-- The callback of a listener.
module _ {W : Type 0} (listed : ℕ → W → Bool)
    (call_if : ℕ → KeyEvent → DeviceManager W → Option (DeviceManager W))
    (calm : (l : ℕ) (event : KeyEvent) (m : DeviceManager W)
      → Returns (Alike listed m) (call_if l event m)) where
  send_to_listener-Alike :
      (l stamp : ℕ) (event : KeyEvent) (m : DeviceManager W)
      → l < length m.listeners
      → Returns (Alike listed m) (send_to_listener call_if l stamp event m)
  unfolding send_to_listener
  send_to_listener-Alike l stamp event m bound =
      let (listener, at) = get_elem?_total m.listeners l bound in
      ground (arith, at, calm l event m, Alike-refl listed m)

  pub send_to_all-Alike :
      (n l stamp : ℕ) (event : KeyEvent) (device : KeysDevice) (m : DeviceManager W)
      → l + n ≤ length m.listeners
      → get_device event.device m ≡ some device
      → Returns (Alike listed m) (send_to_all call_if n l stamp event m)
  unfolding send_to_all
  send_to_all-Alike zero l stamp event device m bound at = Alike-refl listed m
  send_to_all-Alike (suc n) l stamp event device m bound at =
      Returns->>= (Alike listed m) (Alike listed m) (send_to_listener call_if l stamp event m) _
        (send_to_listener-Alike l stamp event m (omega (arith, bound)))
        (λ m' h. elim (Option-cases (get_device event.device m')) [
          | inl gone ↦ absurd (let e = h.3 event.device in ground arith)
          | inr (device', at') ↦
              let e : Returns (Alike listed m) (send_to_all call_if n (suc l) stamp event m') =
                Returns-weaken (Alike listed m') (Alike listed m)
                  (send_to_all call_if n (suc l) stamp event m')
                  (send_to_all-Alike n (suc l) stamp event device' m' (omega (arith, bound, h.2))
                    at')
                  (λ m''. Alike-trans listed m m' m'' h) in
              rw at'
                (elim (Bool-cases (
                  same_type event.key_type key_press
                  && not (is_some (find_pressed event.key device'.pressed_keys)))) [
                    | inl released ↦ rw released h
                    | inr goes_on ↦ rw goes_on e
                  ])
        ])

  cancel_for_listener-Alike :
      (l i key stamp : ℕ) (accessor : Option ℕ) (m : DeviceManager W)
      → l < length m.listeners
      → Returns (Alike listed m) (cancel_for_listener call_if l i key stamp accessor m)
  unfolding cancel_for_listener get_device
  cancel_for_listener-Alike l i key stamp accessor m bound =
      let (listener, at) = get_elem?_total m.listeners l bound in
      let marked = set_key_canceled l listener key m in
      let size : length marked.listeners ≡ length m.listeners =
        length-set m.listeners l
          (record listener { canceled_keys = key ∷ listener.canceled_keys }) in
      rw at (elim (Bool-cases (is_key_canceled key listener.canceled_keys)) [
        | inl told ↦ rw told (Alike-refl listed m)
        | inr untold ↦ rw untold (
            Returns-weaken (Alike listed marked) (Alike listed m)
              (send_to_listener call_if l stamp (cancel_event i key accessor) marked)
              (send_to_listener-Alike l stamp (cancel_event i key accessor) marked
                (omega (arith, size)))
              (λ m' h. (h.0, h.1, h.2 ∙ size, h.3, h.4)))
      ])

  cancel_for_all-Alike :
      (n l i key stamp : ℕ) (accessor : Option ℕ) (m : DeviceManager W)
      → l + n ≤ length m.listeners
      → Returns (Alike listed m) (cancel_for_all call_if n l i key stamp accessor m)
  unfolding cancel_for_all
  cancel_for_all-Alike zero l i key stamp accessor m bound = Alike-refl listed m
  cancel_for_all-Alike (suc n) l i key stamp accessor m bound =
      Returns->>= (Alike listed m) (Alike listed m)
        (cancel_for_listener call_if l i key stamp accessor m)
        (cancel_for_all call_if n (suc l) i key stamp accessor)
        (cancel_for_listener-Alike l i key stamp accessor m (omega (arith, bound)))
        (λ m' h.
          Returns-weaken (Alike listed m') (Alike listed m)
            (cancel_for_all call_if n (suc l) i key stamp accessor m')
            (cancel_for_all-Alike n (suc l) i key stamp accessor m' (omega (arith, bound, h.2)))
            (λ m''. Alike-trans listed m m' m'' h))

  cancel_keys-Alike :
      (n : ℕ) (pressed : List (ℕ × ℕ)) (i : ℕ) (accessor : Option ℕ) (m : DeviceManager W)
      → n ≡ length m.listeners
      → Returns (Alike listed m) (cancel_keys call_if n pressed i accessor m)
  unfolding cancel_keys
  cancel_keys-Alike n [] i accessor m size = Alike-refl listed m
  cancel_keys-Alike n ((key, stamp) ∷ rest) i accessor m size =
      Returns->>= (Alike listed m) (Alike listed m)
        (cancel_for_all call_if n 0 i key stamp accessor m) (cancel_keys call_if n rest i accessor)
        (cancel_for_all-Alike n 0 i key stamp accessor m (omega (arith, size)))
        (λ m' h.
          Returns-weaken (Alike listed m') (Alike listed m)
            (cancel_keys call_if n rest i accessor m')
            (cancel_keys-Alike n rest i accessor m' (size ∙ sym h.2))
            (λ m''. Alike-trans listed m m' m'' h))

  -- A device is still there in a manager that is alike.
  pub still_there :
      (i : ℕ) (device : KeysDevice) (m m' : DeviceManager W)
      → get_device i m ≡ some device
      → Alike listed m m'
      → (device' : KeysDevice) × (get_device i m' ≡ some device')
        × (device'.has_owner ≡ device.has_owner)
  still_there i device m m' at h = elim (Option-cases (get_device i m')) [
    | inl gone ↦ let e = h.3 i in absurd (ground arith)
    | inr (device', at') ↦ let e = h.3 i in (device', at', ground arith)
  ]

  -- The canceling of the pressed keys, and that none is pressed any more.
  abbrev cancel_and_clear : ℕ → List (ℕ × ℕ) → Option ℕ → DeviceManager W → Option (DeviceManager W)
  cancel_and_clear i pressed accessor m = do
    m' ← cancel_keys call_if (length m.listeners) pressed i accessor m
    device' ← get_device i m'
    some (set_device i (record device' { pressed_keys = [] }) m')

  cancel_and_clear-Alike :
      (i : ℕ) (device : KeysDevice) (pressed : List (ℕ × ℕ)) (accessor : Option ℕ)
      (m : DeviceManager W)
      → get_device i m ≡ some device
      → Returns (Alike listed m) (cancel_and_clear i pressed accessor m)
  cancel_and_clear-Alike i device pressed accessor m at =
      Returns->>= (Alike listed m) (Alike listed m)
        (cancel_keys call_if (length m.listeners) pressed i accessor m) _
        (cancel_keys-Alike (length m.listeners) pressed i accessor m refl)
        (λ m' h.
          let (device', at', same) = still_there i device m m' at h in
          let clear = record device' { pressed_keys = [] } in
          rw at' (
            Alike-trans listed m m' (set_device i clear m') h
              (set_device-Alike listed i device' clear m' at' refl)))

  -- `cancelSelectedAccessorKeys`
  pub cancel_selected_accessor_keys-Alike :
      (i : ℕ) (device : KeysDevice) (m : DeviceManager W)
      → get_device i m ≡ some device
      → ((w : ℕ) → m.selected ≡ some w → is_some (get_elem? m.window_data w) ≡ true)
      → Returns (Alike listed m) (cancel_selected_accessor_keys call_if i m)
  unfolding cancel_selected_accessor_keys
  cancel_selected_accessor_keys-Alike i device m at windows =
      let same : Alike listed m m = Alike-refl listed m in
      elim (Option-cases m.selected) [
        | inl nothing ↦
            let e : cancel_selected_accessor_keys call_if i m ≡ some m = ground (arith, at) in
            rw e same
        | inr (w, selected) ↦ elim (Option-cases (get_elem? m.window_data w)) [
          | inl missing ↦ let e = windows w selected in absurd (ground arith)
          | inr (window, there) ↦ elim (Bool-cases (device.has_owner && m.key_events_enabled)) [
            | inr idle ↦
                let e : cancel_selected_accessor_keys call_if i m ≡ some m = ground (arith, at) in
                rw e same
            | inl active ↦
                let e : cancel_selected_accessor_keys call_if i m
                    ≡ cancel_and_clear i device.pressed_keys window.accessor m =
                  ground (arith, at) in
                rw e (cancel_and_clear-Alike i device device.pressed_keys window.accessor m at)
          ]
        ]
      ]

-- ===== src/DeviceManager/Cancel.antt =====
-- btgtkkeysdevice.cc, `cancelSelectedAccessorKeys`: the listeners hear of every key that is pressed a
-- release.
use stmm_input_bt.Base.{
  ◌<◌, ℕ, ◌+◌, ◌≡◌, ◌≢◌, refl, sym, ap, ◌∙◌, Bool, true, false, not, List, [], Option, none, some,
  length, length-set, get_elem?, get_elem?_bound, get_elem?-set_self, get_elem?-set_ne, ltb, ◌==◌,
  if◌then◌else◌, ◌>>=◌, arith, Returns, Returns->>=, Returns-all, ℕ_discrete, Option-cases, inl,
  inr,
}
use stmm_input_bt.DeviceManager.State.{
  KeysDevice, WindowData, DeviceManager, find_pressed, get_device, set_device,
}
use stmm_input_bt.DeviceManager.Keys.{cancel_keys, cancel_selected_accessor_keys}
use stmm_input_bt.DeviceManager.Views.{
  Log, keep_event, View, view, cancel_pressed, CancelsAll, cancel_keys-view,
}

-- Whether a key is pressed that the listener has heard of: it was not added after the press.
abbrev pub held_in : ℕ → ℕ → List (ℕ × ℕ) → Bool
held_in added k ps = elim (find_pressed k ps) [ none ↦ false | some stamp ↦ not (ltb stamp added) ]

abbrev pub held_by : ℕ → ℕ → Option KeysDevice → Bool
held_by added k none = false
held_by added k (some device) = held_in added k device.pressed_keys

abbrev pub holds : ℕ → ℕ → ℕ → DeviceManager Log → Bool
holds added i k m = held_by added k (get_device i m)

-- Of each key of each device, each listener has heard as many releases as presses, and one press more
-- exactly if the key is pressed and was so since the listener was added.
abbrev pub IsHeard : DeviceManager Log → Type 0
IsHeard m =
    (j i k : ℕ) (v : View)
    → view j i k m ≡ some v
    → v.presses ≡ v.releases + (if holds v.added i k m then 1 else 0)

-- No listener was told already that a pressed key of the device is canceled.
abbrev pub Untold : ℕ → DeviceManager Log → Type 0
Untold d m =
    (j k stamp : ℕ) (device : KeysDevice) (v : View)
    → get_device d m ≡ some device
    → find_pressed k device.pressed_keys ≡ some stamp
    → view j d k m ≡ some v
    → v.canceled ≡ false

pub get_device_bound :
    {W : Type 0} (i : ℕ) (device : KeysDevice) (m : DeviceManager W)
    → get_device i m ≡ some device
    → i < length m.devices
unfolding get_device
get_device_bound i device m at = elim (Option-cases (get_elem? m.devices i)) [
  | inl nothing ↦ absurd (ground arith)
  | inr (slot, there) ↦ get_elem?_bound m.devices i slot there
]

pub get_device-set_self :
    (d : ℕ) (device device' : KeysDevice) (m : DeviceManager Log)
    → get_device d m ≡ some device
    → get_device d (set_device d device' m) ≡ some device'
unfolding get_device
get_device-set_self d device device' m at = elim (Option-cases (get_elem? m.devices d)) [
  | inl nothing ↦ absurd (ground arith)
  | inr (slot, there) ↦
      rw (get_elem?-set_self m.devices d (some device') (get_elem?_bound m.devices d slot there))
]

pub get_device-set_ne :
    (d i : ℕ) (device : KeysDevice) (m : DeviceManager Log)
    → d ≢ i
    → get_device i (set_device d device m) ≡ get_device i m
unfolding get_device
get_device-set_ne d i device m other = rw (get_elem?-set_ne m.devices d i (some device) other)

-- The device with no key pressed.
abbrev pub cleared : ℕ → KeysDevice → DeviceManager Log → DeviceManager Log
cleared d device m = set_device d (record device { pressed_keys = [] }) m

view-set_device :
    (j i k d : ℕ) (device : KeysDevice) (m : DeviceManager Log)
    → view j i k (set_device d device m) ≡ view j i k m
unfolding view
view-set_device j i k d device m = refl

-- A view of the device that is canceled: what was held is released.
cancel_pressed-here :
    (k : ℕ) (ps : List (ℕ × ℕ)) (v v' : View)
    → cancel_pressed true k ps (some v) ≡ some v'
    → ((stamp : ℕ) → find_pressed k ps ≡ some stamp → v.canceled ≡ false)
    → v.presses ≡ v.releases + (if held_in v.added k ps then 1 else 0)
    → v'.presses ≡ v'.releases + 0
cancel_pressed-here k ps v v' e untold h = elim (Option-cases (find_pressed k ps)) [
  | inl nothing ↦ ground arith
  | inr (stamp, found) ↦ ground (arith, untold stamp found)
]

-- A view of another device: it has heard nothing.
cancel_pressed-other :
    (k : ℕ) (ps : List (ℕ × ℕ)) (v v' : View)
    → cancel_pressed false k ps (some v) ≡ some v'
    → (v'.presses ≡ v.presses) × (v'.releases ≡ v.releases) × (v'.added ≡ v.added)
cancel_pressed-other k ps v v' e = elim (Option-cases (find_pressed k ps)) [
  | inl nothing ↦ ground arith
  | inr (stamp, found) ↦ ground arith
]

cancel_pressed-none :
    (here : Bool) (k : ℕ) (ps : List (ℕ × ℕ)) → cancel_pressed here k ps none ≡ none
cancel_pressed-none here k ps = elim (Option-cases (find_pressed k ps)) [
  | inl nothing ↦ ground arith
  | inr (stamp, found) ↦ ground arith
]

-- Whatever is seen of a manager whose device `d` was canceled and cleared.
cleared-IsHeard :
    (d : ℕ) (device : KeysDevice) (m m' : DeviceManager Log)
    → get_device d m ≡ some device
    → get_device d m' ≡ some device
    → ((i : ℕ) → get_device i m' ≡ get_device i m)
    → ((j i k : ℕ) → CancelsAll device.pressed_keys d j i k m m')
    → IsHeard m
    → Untold d m
    → IsHeard (cleared d device m')
unfolding find_pressed view
cleared-IsHeard d device m m' at at' same told h untold j i k v seen =
    let after : view j i k m' ≡ some v = seen in
    let seen' = (told j i k).1 in
    elim (Option-cases (view j i k m)) [
      | inl nothing ↦
          let gone : view j i k m' ≡ none =
            seen'
            ∙ ap (cancel_pressed (d == i) k device.pressed_keys) nothing
            ∙ cancel_pressed-none (d == i) k device.pressed_keys in
          absurd cc
      | inr (v0, before) ↦
          let change : cancel_pressed (d == i) k device.pressed_keys (some v0) ≡ some v =
            ap (cancel_pressed (d == i) k device.pressed_keys) (sym before) ∙ sym seen' ∙ after in
          elim (ℕ_discrete d i) [
            | yes here ↦
                let mine : get_device i m ≡ some device =
                  ap (λ n. get_device n m) (sym here) ∙ at in
                let holding : holds v0.added i k m ≡ held_in v0.added k device.pressed_keys =
                  ap (held_by v0.added k) mine in
                let balance = h j i k v0 before in
                let done : v.presses ≡ v.releases + 0 =
                  cancel_pressed-here k device.pressed_keys v0 v (ground (arith, change, here))
                    (λ stamp found. untold j k stamp device v0 at found (rw here before))
                    (rw (sym holding) balance) in
                let clear : holds v.added i k (cleared d device m') ≡ false =
                  ap (held_by v.added k) (
                    ap (λ n. get_device n (cleared d device m')) (sym here)
                    ∙ get_device-set_self d device (record device { pressed_keys = [] }) m' at') in
                rw clear done
            | no other ↦
                let kept =
                  cancel_pressed-other k device.pressed_keys v0 v (ground (arith, change, other)) in
                let theirs : get_device i (cleared d device m') ≡ get_device i m =
                  get_device-set_ne d i (record device { pressed_keys = [] }) m' other ∙ same i in
                let holding : holds v.added i k (cleared d device m') ≡ holds v.added i k m =
                  ap (held_by v.added k) theirs in
                let balance = h j i k v0 before in rw (holding, kept.0, kept.1, kept.2) balance
          ]
    ]

-- A manager whose device `d` was canceled: what the listeners saw, and that the rest is the same.
pub record Canceled (d : ℕ) (ps : List (ℕ × ℕ)) (m m' : DeviceManager Log) : Type 0 where
  pub seen : (j i k : ℕ) → view j i k m' ≡ cancel_pressed (d == i) k ps (view j i k m)
  pub emptied : (device : KeysDevice) → get_device d m' ≡ some device → device.pressed_keys ≡ []
  pub present : (device : KeysDevice) × (get_device d m' ≡ some device)
  pub others : (i : ℕ) → d ≢ i → get_device i m' ≡ get_device i m
  pub same_size : length m'.devices ≡ length m.devices
  pub same_selected : m'.selected ≡ m.selected
  pub same_data : m'.window_data ≡ m.window_data
  pub same_depth : m'.canceling_nested_depth ≡ m.canceling_nested_depth
  pub same_enabled : m'.key_events_enabled ≡ m.key_events_enabled

-- What a device needs to be canceled: its owner, the key events, and a selected window.
pub record IsCancelable (d : ℕ) (device : KeysDevice) (m : DeviceManager Log) : Type 0 where
  pub at : get_device d m ≡ some device
  pub owned : device.has_owner ≡ true
  pub enabled : m.key_events_enabled ≡ true
  pub w : ℕ
  pub window : WindowData
  pub selected_at : m.selected ≡ some w
  pub window_at : get_elem? m.window_data w ≡ some window

pub get_device-same :
    (i : ℕ) (m m' : DeviceManager Log) → m'.devices ≡ m.devices → get_device i m' ≡ get_device i m
unfolding get_device
get_device-same i m m' h = ap (λ devices. get_elem? devices i >>= λ device. device) h

cleared-Canceled :
    (d : ℕ) (device : KeysDevice) (m m' : DeviceManager Log)
    → IsCancelable d device m
    → ((x : ℕ × ℕ × ℕ) → CancelsAll device.pressed_keys d x.0 x.1 x.2 m m')
    → Canceled d device.pressed_keys m (cleared d device m')
      × (IsHeard m → Untold d m → IsHeard (cleared d device m'))
cleared-Canceled d device m m' can told =
    let rest = (told (0, 0, 0)).0 in
    let same : (i : ℕ) → get_device i m' ≡ get_device i m = (λ i. get_device-same i m m' rest.0) in
    let at' : get_device d m' ≡ some device = same d ∙ can.at in
    (
      record {
        seen = λ j i k.
            view-set_device j i k d (record device { pressed_keys = [] }) m' ∙ (told (j, i, k)).1;
        emptied = λ other at.
            let e : some other ≡ some (record device { pressed_keys = [] }) =
              sym at ∙ get_device-set_self d device (record device { pressed_keys = [] }) m' at' in
            cc;
        present = (
          record device { pressed_keys = [] },
          get_device-set_self d device (record device { pressed_keys = [] }) m' at',
        );
        others = λ i other.
            get_device-set_ne d i (record device { pressed_keys = [] }) m' other ∙ same i;
        same_size =
            length-set m'.devices d (some (record device { pressed_keys = [] })) ∙ ap length rest.0;
        same_selected = rest.1;
        same_data = rest.2;
        same_enabled = rest.3;
        same_depth = rest.5;
      },
      (λ h untold.
          cleared-IsHeard d device m m' can.at at' same (λ j i k. told (j, i, k)) h untold),
    )

-- What it does then.
clear_after : ℕ → DeviceManager Log → Option (DeviceManager Log)
clear_after d m = do
  device ← get_device d m
  some (set_device d (record device { pressed_keys = [] }) m)

cancel_selected_accessor_keys-loop :
    (d : ℕ) (device : KeysDevice) (m : DeviceManager Log) (can : IsCancelable d device m)
    → cancel_selected_accessor_keys keep_event d m ≡ (
        cancel_keys keep_event (length m.listeners) device.pressed_keys d can.window.accessor m
        >>= clear_after d)
unfolding cancel_selected_accessor_keys clear_after
cancel_selected_accessor_keys-loop d device m can =
    ground (arith, can.at, can.owned, can.enabled, can.selected_at, can.window_at)

-- `cancelSelectedAccessorKeys` of a device with its owner, while key events are enabled and a window
-- is selected: it returns, no key of the device is pressed, the other devices are unchanged, and if
-- no listener was told of its keys before, the listeners have heard as they should.
pub cancel_selected_accessor_keys_lem :
    (d : ℕ) (device : KeysDevice) (m : DeviceManager Log)
    → IsCancelable d device m
    → Returns
        (λ m'. Canceled d device.pressed_keys m m' × (IsHeard m → Untold d m → IsHeard m'))
        (cancel_selected_accessor_keys keep_event d m)
unfolding clear_after
cancel_selected_accessor_keys_lem d device m can =
    rw (cancel_selected_accessor_keys-loop d device m can) (
      Returns->>= (λ m'. (x : ℕ × ℕ × ℕ) → CancelsAll device.pressed_keys d x.0 x.1 x.2 m m')
        (λ m'. Canceled d device.pressed_keys m m' × (IsHeard m → Untold d m → IsHeard m'))
        (cancel_keys keep_event (length m.listeners) device.pressed_keys d can.window.accessor m)
        (clear_after d)
        (Returns-all (λ x. CancelsAll device.pressed_keys d x.0 x.1 x.2 m)
          (cancel_keys keep_event (length m.listeners) device.pressed_keys d can.window.accessor m)
          (0, 0, 0)
          (λ x.
            cancel_keys-view device.pressed_keys (length m.listeners) x.0 x.1 x.2 d
              can.window.accessor m refl))
        (λ m' told.
          let at' : get_device d m' ≡ some device =
            get_device-same d m m' (told (0, 0, 0)).0.0 ∙ can.at in
          rw at' (cleared-Canceled d device m m' can told)))

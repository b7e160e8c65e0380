-- ===== src/DeviceManager/Hear.antt =====
-- btgtkkeysdevice.cc, `onBlueKey`: each listener hears of a key a press and then a release in turn.
use stmm_input_bt.Base.{
  ℕ, zero, suc, ◌+◌, ◌≤◌, ◌<◌, ◌≡◌, ◌∙◌, Bool, true, not, ◌&&◌, ◌||◌, Option, none, some, length,
  get_elem?_total, ltb, ◌==◌, if◌then◌else◌, ◌>>=◌, is_some, arith, Returns, Returns->>=,
  Returns-weaken, ℕ_discrete, ==_iff, Bool-cases, inl, inr,
}
use stmm_input_bt.KeyPacket.{key_press, same_type}
use stmm_input_bt.DeviceManager.State.{
  KeysDevice, KeyEvent, DeviceManager, find_pressed, get_device,
}
use stmm_input_bt.DeviceManager.Keys.{send_to_listener, send_to_all}
use stmm_input_bt.DeviceManager.Views.{Log, keep_event, View, view, SameRest, in_range}
use stmm_input_bt.DeviceManager.Cancel.{get_device-same}

-- What the sending of an event about a key that was pressed at `stamp` does to the view of it.
abbrev pub hear_view : Bool → ℕ → View → View
hear_view press stamp v =
    if ltb stamp v.added
    then v
    else if press
    then record v { presses = v.presses + 1 }
    else record v { releases = v.releases + 1 }

abbrev pub hear_seen : Bool → ℕ → Option View → Option View
hear_seen press stamp none = none
hear_seen press stamp (some v) = some (hear_view press stamp v)

abbrev pub Hears : Bool → ℕ → KeyEvent → ℕ → ℕ → ℕ → DeviceManager Log → DeviceManager Log → Type 0
Hears hit stamp event j i k m m' =
    SameRest m m'
    × (view j i k m' ≡ (
        if hit && (event.device == i && event.key == k)
        then hear_seen (same_type event.key_type key_press) stamp (view j i k m)
        else view j i k m))

send_to_listener-view :
    (j i k l stamp : ℕ) (event : KeyEvent) (m : DeviceManager Log)
    → l < length m.listeners
    → Returns (Hears (l == j) stamp event j i k m) (send_to_listener keep_event l stamp event m)
unfolding send_to_listener keep_event view
send_to_listener-view j i k l stamp event m bound =
    let (listener, at) = get_elem?_total m.listeners l bound in
    elim (ℕ_discrete l j) [
      | yes here ↦ ground (arith, at, ==_iff l j)
      | no other ↦ ground (arith, at, ==_iff l j)
    ]

hear_step :
    (n l j i k stamp : ℕ) (event : KeyEvent) (m m' m'' : DeviceManager Log)
    → Hears (l == j) stamp event j i k m m'
    → Hears (in_range n (suc l) j) stamp event j i k m' m''
    → Hears (in_range (suc n) l j) stamp event j i k m m''
hear_step n l j i k stamp event m m' m'' h h' = ground arith

-- The device is there, and holds the key if the event is its press.
abbrev pub Holding : KeyEvent → DeviceManager Log → Type 0
Holding event m =
    (device : KeysDevice) × (get_device event.device m ≡ some device)
    × ((not (same_type event.key_type key_press)
          || is_some (find_pressed event.key device.pressed_keys))
        ≡ true)

Holding-same :
    (event : KeyEvent) (m m' : DeviceManager Log)
    → m'.devices ≡ m.devices
    → Holding event m
    → Holding event m'
Holding-same event m m' same h = (h.0, get_device-same event.device m m' same ∙ h.1, h.2)

still_held : (press held : Bool) → (not press || held) ≡ true → press ≡ true → held ≡ true
still_held press held h e = ground arith

-- The loop does not stop early, since the callbacks release no key.
send_to_all-next :
    (n l stamp : ℕ) (event : KeyEvent) (m' : DeviceManager Log) (P : DeviceManager Log → Type 0)
    → Holding event m'
    → Returns P (send_to_all keep_event n (suc l) stamp event m')
    → Returns P (
        get_device event.device m' >>= λ device.
        if same_type event.key_type key_press
          && not (is_some (find_pressed event.key device.pressed_keys))
        then some m'
        else send_to_all keep_event n (suc l) stamp event m')
send_to_all-next n l stamp event m' P (device, at, held) h =
    elim (Bool-cases (same_type event.key_type key_press)) [
      | inl press ↦
          let still : is_some (find_pressed event.key device.pressed_keys) ≡ true =
            still_held (same_type event.key_type key_press)
              (is_some (find_pressed event.key device.pressed_keys)) held press in
          rw (at, press, still) h
      | inr release ↦ rw (at, release) h
    ]

pub send_to_all-view :
    (n j i k l stamp : ℕ) (event : KeyEvent) (m : DeviceManager Log)
    → l + n ≤ length m.listeners
    → Holding event m
    → Returns
        (Hears (in_range n l j) stamp event j i k m)
        (send_to_all keep_event n l stamp event m)
unfolding send_to_all
send_to_all-view zero j i k l stamp event m bound held = ground arith
send_to_all-view (suc n) j i k l stamp event m bound held =
    Returns->>= (Hears (l == j) stamp event j i k m)
      (Hears (in_range (suc n) l j) stamp event j i k m)
      (send_to_listener keep_event l stamp event m)
      (λ m'. get_device event.device m' >>= λ device.
        if same_type event.key_type key_press
          && not (is_some (find_pressed event.key device.pressed_keys))
        then some m'
        else send_to_all keep_event n (suc l) stamp event m')
      (send_to_listener-view j i k l stamp event m (omega (arith, bound)))
      (λ m' h.
        let held' : Holding event m' = Holding-same event m m' h.0.0 held in
        send_to_all-next n l stamp event m' (Hears (in_range (suc n) l j) stamp event j i k m) held'
          (Returns-weaken (Hears (in_range n (suc l) j) stamp event j i k m')
            (Hears (in_range (suc n) l j) stamp event j i k m)
            (send_to_all keep_event n (suc l) stamp event m')
            (send_to_all-view n j i k (suc l) stamp event m' (omega (arith, bound, h.0.4)) held')
            (λ m'' h'. hear_step n l j i k stamp event m m' m'' h h')))

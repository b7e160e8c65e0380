-- ===== src/DeviceManager/Press.antt =====
-- btgtkkeysdevice.cc, `onBlueKey`: what the sending of a press or a release does to the listeners'
-- balances.
use stmm_input_bt.Base.{
  subst, ℕ, ◌+◌, ◌<◌, ◌≡◌, ◌≢◌, refl, sym, ap, ◌∙◌, Bool, true, false, List, [], ◌∷◌, Option, none,
  some, length, ◌==◌, if◌then◌else◌, ◌>>=◌, is_some, arith, Returns, Returns->>=, Returns-all,
  ℕ_discrete, dec_lt, Option-cases, Bool-cases, inl, inr,
}
use stmm_input_bt.KeyPacket.{KeyInputType, key_press, same_type}
use stmm_input_bt.DeviceManager.State.{
  KeysDevice, DeviceManager, find_pressed, erase_pressed, get_device, set_device,
}
use stmm_input_bt.DeviceManager.Keys.{key_event, send_to_all}
use stmm_input_bt.DeviceManager.Views.{Log, keep_event, View, view, in_range, view-out}
use stmm_input_bt.DeviceManager.Cancel.{
  held_in, held_by, holds, IsHeard, get_device-same, get_device-set_self, get_device-set_ne,
}
use stmm_input_bt.DeviceManager.Hear.{Hears, hear_seen, send_to_all-view}

find_pressed-erase_self : (k : ℕ) (ps : List (ℕ × ℕ)) → find_pressed k (erase_pressed k ps) ≡ none
unfolding find_pressed erase_pressed
find_pressed-erase_self k [] = refl
find_pressed-erase_self k ((other, stamp) ∷ ps) = ground (arith, find_pressed-erase_self k ps)

find_pressed-erase_ne :
    (k key : ℕ) (ps : List (ℕ × ℕ))
    → key ≢ k
    → find_pressed k (erase_pressed key ps) ≡ find_pressed k ps
unfolding find_pressed erase_pressed
find_pressed-erase_ne k key [] h = refl
find_pressed-erase_ne k key ((other, stamp) ∷ ps) h =
    ground (arith, find_pressed-erase_ne k key ps h)

-- The key's press or release, in the pressed keys of a device.
pub record Turned (press : Bool) (key stamp : ℕ) (ps qs : List (ℕ × ℕ)) : Type 0 where
  pub others : (k : ℕ) → key ≢ k → find_pressed k qs ≡ find_pressed k ps
  pub before : find_pressed key ps ≡ (if press then none else some stamp)
  pub after : find_pressed key qs ≡ (if press then some stamp else none)

pub press-Turned :
    (key stamp : ℕ) (ps : List (ℕ × ℕ))
    → find_pressed key ps ≡ none
    → Turned true key stamp ps ((key, stamp) ∷ ps)
unfolding find_pressed
press-Turned key stamp ps free = record {
  others = λ k other. ground arith;
  before = free;
  after = ground arith;
}

pub release-Turned :
    (key stamp : ℕ) (ps : List (ℕ × ℕ))
    → find_pressed key ps ≡ some stamp
    → Turned false key stamp ps (erase_pressed key ps)
release-Turned key stamp ps found = record {
  others = λ k other. find_pressed-erase_ne k key ps other;
  before = found;
  after = find_pressed-erase_self key ps;
}

-- The balance of a listener for a key of the device.
Turned-balance :
    (press : Bool) (key k stamp : ℕ) (ps qs : List (ℕ × ℕ)) (v0 v : View)
    → Turned press key stamp ps qs
    → (if key == k then hear_seen press stamp (some v0) else some v0) ≡ some v
    → v0.presses ≡ v0.releases + (if held_in v0.added k ps then 1 else 0)
    → v.presses ≡ v.releases + (if held_in v.added k qs then 1 else 0)
Turned-balance press key k stamp ps qs v0 v t e h = elim (ℕ_discrete key k) [
  | no other ↦ ground (arith, t.others k other)
  | yes this ↦
      let before : find_pressed k ps ≡ (if press then none else some stamp) =
        ap (λ x. find_pressed x ps) (sym this) ∙ t.before in
      let after : find_pressed k qs ≡ (if press then some stamp else none) =
        ap (λ x. find_pressed x qs) (sym this) ∙ t.after in
      elim (Bool-cases press) [ inl pressed ↦ ground arith | inr released ↦ ground arith ]
]

view_bound :
    (j i k : ℕ) (m : DeviceManager Log) (v : View) → view j i k m ≡ some v → j < length m.listeners
view_bound j i k m v seen = elim (dec_lt j (length m.listeners)) [
  | yes less ↦ less
  | no out ↦
      let nothing : view j i k m ≡ none = view-out j i k m (omega (arith, out)) in
      absurd (ground arith)
]

in_range_all : (j n : ℕ) → j < n → in_range n 0 j ≡ true
in_range_all j n h = ground arith

-- All that is heard of the event and of the change of the device.
Turned-IsHeard :
    (i : ℕ) (type : KeyInputType) (key stamp : ℕ) (accessor : Option ℕ)
    (device device' : KeysDevice) (m m' : DeviceManager Log)
    → get_device i m ≡ some device
    → Turned (same_type type key_press) key stamp device.pressed_keys device'.pressed_keys
    → ((x : ℕ × ℕ × ℕ)
        → Hears
            (in_range (length m.listeners) 0 x.0)
            stamp
            (key_event i type key accessor)
            x.0
            x.1
            x.2
            (set_device i device' m)
            m')
    → IsHeard m
    → IsHeard m'
unfolding view
Turned-IsHeard i type key stamp accessor device device' m m' at turned told h j d k v seen =
    let told_of = told (j, d, k) in
    let same = told_of.0 in
    elim (Option-cases (view j d k m)) [
      | inl nothing ↦ absurd (ground (arith, told_of.1))
      | inr (v0, before) ↦
          let inside : in_range (length m.listeners) 0 j ≡ true =
            in_range_all j (length m.listeners) (view_bound j d k m v0 before) in
          let balance = h j d k v0 before in
          elim (ℕ_discrete i d) [
            | no other ↦
                let kept : v0 ≡ v = ground (arith, told_of.1) in
                let theirs : get_device d m' ≡ get_device d m =
                  get_device-same d (set_device i device' m) m' same.0
                  ∙ get_device-set_ne i d device' m other in
                let holding : holds v0.added d k m' ≡ holds v0.added d k m =
                  ap (held_by v0.added k) theirs in
                subst (λ x. x.presses ≡ x.releases + (if holds x.added d k m' then 1 else 0)) kept
                  (rw holding balance)
            | yes here ↦
                let mine : get_device d m ≡ some device =
                  ap (λ n. get_device n m) (sym here) ∙ at in
                let mine' : get_device d m' ≡ some device' =
                  get_device-same d (set_device i device' m) m' same.0
                  ∙ ap (λ n. get_device n (set_device i device' m)) (sym here)
                  ∙ get_device-set_self i device device' m at in
                let holding : holds v0.added d k m ≡ held_in v0.added k device.pressed_keys =
                  ap (held_by v0.added k) mine in
                let holding' : holds v.added d k m' ≡ held_in v.added k device'.pressed_keys =
                  ap (held_by v.added k) mine' in
                let change : (if key == k
                      then hear_seen (same_type type key_press) stamp (some v0)
                      else some v0)
                    ≡ some v =
                  ground (arith, told_of.1) in
                rw holding' (
                  Turned-balance (same_type type key_press) key k stamp device.pressed_keys
                    device'.pressed_keys v0 v turned change (rw (sym holding) balance))
          ]
    ]

-- What a key does to the manager: the listeners have heard as they should, and the key is pressed
-- after a press, and not after a release.
abbrev pub Handled : ℕ → KeyInputType → ℕ → DeviceManager Log → Type 0
Handled i type key m =
    IsHeard m
    × ((device : KeysDevice)
        → get_device i m ≡ some device
        → is_some (find_pressed key device.pressed_keys) ≡ same_type type key_press)

-- The sending of a press or a release, and the result.
abbrev pub send_key :
    ℕ
    → KeyInputType
    → ℕ
    → ℕ
    → Option ℕ
    → KeysDevice
    → DeviceManager Log
    → Option (DeviceManager Log × Bool)
send_key i type key stamp accessor device' m = do
  m' ←
      send_to_all keep_event (length m.listeners) 0 stamp (key_event i type key accessor)
        (set_device i device' m)
  some (m', true)

Turned-held :
    (press : Bool) (key stamp : ℕ) (ps qs : List (ℕ × ℕ))
    → Turned press key stamp ps qs
    → is_some (find_pressed key qs) ≡ press
Turned-held press key stamp ps qs t = elim (Bool-cases press) [
  | inl pressed ↦ ground (arith, t.after)
  | inr released ↦ ground (arith, t.after)
]

pub send_key_lem :
    (i : ℕ) (type : KeyInputType) (key stamp : ℕ) (accessor : Option ℕ)
    (device device' : KeysDevice) (m : DeviceManager Log)
    → get_device i m ≡ some device
    → Turned (same_type type key_press) key stamp device.pressed_keys device'.pressed_keys
    → IsHeard m
    → Returns
        (λ (r : DeviceManager Log × Bool). Handled i type key r.0)
        (send_key i type key stamp accessor device' m)
send_key_lem i type key stamp accessor device device' m at turned h =
    let event = key_event i type key accessor in
    let m' = set_device i device' m in
    let there : get_device i m' ≡ some device' = get_device-set_self i device device' m at in
    let held =
      Turned-held (same_type type key_press) key stamp device.pressed_keys device'.pressed_keys
        turned in
    Returns->>=
      (λ m''.
        (x : ℕ × ℕ × ℕ)
        → Hears (in_range (length m.listeners) 0 x.0) stamp event x.0 x.1 x.2 m' m'')
      (λ (r : DeviceManager Log × Bool). Handled i type key r.0)
      (send_to_all keep_event (length m.listeners) 0 stamp event m') (λ m''. some (m'', true))
      (Returns-all
        (λ x m''. Hears (in_range (length m.listeners) 0 x.0) stamp event x.0 x.1 x.2 m' m'')
        (send_to_all keep_event (length m.listeners) 0 stamp event m') (0, 0, 0)
        (λ x.
          send_to_all-view (length m.listeners) x.0 x.1 x.2 0 stamp event m' (omega arith)
            (device', there, ground (arith, held))))
      (λ m'' told. (
        Turned-IsHeard i type key stamp accessor device device' m m'' at turned told h,
        λ other other_at.
            let e : some other ≡ some device' =
              sym other_at ∙ get_device-same i m' m'' (told (0, 0, 0)).0.0 ∙ there in
            ground (arith, held),
      ))

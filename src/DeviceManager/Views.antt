-- ===== src/DeviceManager/Views.antt =====
-- What one listener has heard of one key of one device, and how the loops over the listeners change it.
-- The listeners here do not call the manager: they only keep a log of what they hear.
use stmm_input_bt.Base.{
  ℕ, zero, suc, ◌+◌, ◌≤◌, ◌<◌, ◌≡◌, Bool, true, not, ◌&&◌, List, [], ◌∷◌, Option, none, some,
  length, length-set, get_elem?, get_elem?_total, get_elem?_out, get_elem?-set_self,
  get_elem?-set_ne, ltb, ◌==◌, if◌then◌else◌, ◌>>=◌, arith, Returns, Returns->>=, Returns-weaken,
  ℕ_discrete, dec_lt, ==_iff,
}
use stmm_input_bt.KeyPacket.{key_press, same_type}
use stmm_input_bt.DeviceManager.State.{KeyEvent, DeviceManager, find_pressed, is_key_canceled}
use stmm_input_bt.DeviceManager.Keys.{
  send_to_listener, cancel_for_listener, cancel_for_all, cancel_keys,
}

-- The events that the listeners heard, each with its listener, the newest first.
abbrev pub Log : Type 0
Log = List (ℕ × KeyEvent)

-- A listener that only writes to the log.
unfoldable pub keep_event : ℕ → KeyEvent → DeviceManager Log → Option (DeviceManager Log)
keep_event l event m = some (record m { world = (l, event) ∷ m.world })

-- An event of this listener about this key of this device.
abbrev pub is_about : ℕ → ℕ → ℕ → ℕ × KeyEvent → Bool
is_about j i k (l, event) = l == j && (event.device == i && event.key == k)

abbrev pub heard_presses : ℕ → ℕ → ℕ → Log → ℕ
heard_presses j i k [] = 0
heard_presses j i k (e ∷ log) =
    if is_about j i k e && same_type e.1.key_type key_press
    then heard_presses j i k log + 1
    else heard_presses j i k log

-- Both kinds of releases.
abbrev pub heard_releases : ℕ → ℕ → ℕ → Log → ℕ
heard_releases j i k [] = 0
heard_releases j i k (e ∷ log) =
    if is_about j i k e && not (same_type e.1.key_type key_press)
    then heard_releases j i k log + 1
    else heard_releases j i k log

pub record View : Type 0 where
  pub added : ℕ
  pub canceled : Bool
  pub presses : ℕ
  pub releases : ℕ

-- Listener `j`, as to key `k` of the device in slot `i`.
unfoldable pub view : ℕ → ℕ → ℕ → DeviceManager Log → Option View
view j i k m = do
  listener ← get_elem? m.listeners j
  some (record {
    added = listener.added_time_stamp;
    canceled = is_key_canceled k listener.canceled_keys;
    presses = heard_presses j i k m.world;
    releases = heard_releases j i k m.world;
  })

-- What the cancelling of a key that was pressed at `stamp` does to the view of it; `here` is whether the
-- view is of the same device.
abbrev pub cancel_view : Bool → ℕ → View → View
cancel_view here stamp v = if v.canceled then v else record v {
  canceled = true;
  releases = v.releases + (if here && not (ltb stamp v.added) then 1 else 0);
}

abbrev pub cancel_seen : Bool → ℕ → Option View → Option View
cancel_seen here stamp none = none
cancel_seen here stamp (some v) = some (cancel_view here stamp v)

-- The rest of the manager is the same.
abbrev pub SameRest : DeviceManager Log → DeviceManager Log → Type 0
SameRest m m' =
    (m'.devices ≡ m.devices)
    × (m'.selected ≡ m.selected)
    × (m'.window_data ≡ m.window_data)
    × (m'.key_events_enabled ≡ m.key_events_enabled)
    × (length m'.listeners ≡ length m.listeners)
    × (m'.canceling_nested_depth ≡ m.canceling_nested_depth)

-- What was seen is canceled if `hit`, and else as it was.
abbrev pub Cancels : Bool → ℕ → ℕ → ℕ → ℕ → ℕ → DeviceManager Log → DeviceManager Log → Type 0
Cancels hit d stamp j i k m m' =
    SameRest m m'
    × (view j i k m' ≡ (if hit then cancel_seen (d == i) stamp (view j i k m) else view j i k m))

-- One listener's cancelling.
cancel_for_listener-view :
    (j i k l d key stamp : ℕ) (accessor : Option ℕ) (m : DeviceManager Log)
    → l < length m.listeners
    → Returns
        (Cancels (l == j && key == k) d stamp j i k m)
        (cancel_for_listener keep_event l d key stamp accessor m)
unfolding cancel_for_listener send_to_listener keep_event view is_key_canceled
cancel_for_listener-view j i k l d key stamp accessor m bound =
    let (listener, at) = get_elem?_total m.listeners l bound in
    elim (ℕ_discrete l j) [
      | yes here ↦ ground (
        arith,
        at,
        ==_iff l j,
        get_elem?-set_self m.listeners l
            (record listener { canceled_keys = key ∷ listener.canceled_keys }) bound,
        length-set m.listeners l (record listener { canceled_keys = key ∷ listener.canceled_keys }),
      )
      | no other ↦ ground (
        arith,
        at,
        ==_iff l j,
        get_elem?-set_self m.listeners l
            (record listener { canceled_keys = key ∷ listener.canceled_keys }) bound,
        get_elem?-set_ne m.listeners l j
            (record listener { canceled_keys = key ∷ listener.canceled_keys }) other,
        length-set m.listeners l (record listener { canceled_keys = key ∷ listener.canceled_keys }),
      )
    ]

-- The listeners from the one at `l` on, `n` of them.
abbrev pub in_range : ℕ → ℕ → ℕ → Bool
in_range n l j = not (ltb j l) && ltb j (l + n)

cancel_step :
    (n l j i k d key stamp : ℕ) (m m' m'' : DeviceManager Log)
    → Cancels (l == j && key == k) d stamp j i k m m'
    → Cancels (in_range n (suc l) j && key == k) d stamp j i k m' m''
    → Cancels (in_range (suc n) l j && key == k) d stamp j i k m m''
cancel_step n l j i k d key stamp m m' m'' h h' = ground arith

cancel_for_all-view :
    (n j i k l d key stamp : ℕ) (accessor : Option ℕ) (m : DeviceManager Log)
    → l + n ≤ length m.listeners
    → Returns
        (Cancels (in_range n l j && key == k) d stamp j i k m)
        (cancel_for_all keep_event n l d key stamp accessor m)
unfolding cancel_for_all
cancel_for_all-view zero j i k l d key stamp accessor m bound = ground arith
cancel_for_all-view (suc n) j i k l d key stamp accessor m bound =
    Returns->>= (Cancels (l == j && key == k) d stamp j i k m)
      (Cancels (in_range (suc n) l j && key == k) d stamp j i k m)
      (cancel_for_listener keep_event l d key stamp accessor m)
      (cancel_for_all keep_event n (suc l) d key stamp accessor)
      (cancel_for_listener-view j i k l d key stamp accessor m (omega (arith, bound)))
      (λ m' h.
        Returns-weaken (Cancels (in_range n (suc l) j && key == k) d stamp j i k m')
          (Cancels (in_range (suc n) l j && key == k) d stamp j i k m)
          (cancel_for_all keep_event n (suc l) d key stamp accessor m')
          (cancel_for_all-view n j i k (suc l) d key stamp accessor m'
            (omega (arith, bound, h.0.4)))
          (λ m'' h'. cancel_step n l j i k d key stamp m m' m'' h h'))

pub view-out : (j i k : ℕ) (m : DeviceManager Log) → length m.listeners ≤ j → view j i k m ≡ none
unfolding view
view-out j i k m h = rw (get_elem?_out m.listeners j h)

-- The view after the cancelling of all pressed keys of a device: the key is canceled if it is among
-- them.
abbrev pub cancel_pressed : Bool → ℕ → List (ℕ × ℕ) → Option View → Option View
cancel_pressed here k ps seen = elim (find_pressed k ps) [
  | none ↦ seen
  | some stamp ↦ cancel_seen here stamp seen
]

abbrev pub CancelsAll :
    List (ℕ × ℕ) → ℕ → ℕ → ℕ → ℕ → DeviceManager Log → DeviceManager Log → Type 0
CancelsAll ps d j i k m m' =
    SameRest m m' × (view j i k m' ≡ cancel_pressed (d == i) k ps (view j i k m))

cancel_pressed-step :
    (ps : List (ℕ × ℕ)) (n j i k d key stamp : ℕ) (m m' m'' : DeviceManager Log)
    → n ≡ length m.listeners
    → Cancels (in_range n 0 j && key == k) d stamp j i k m m'
    → CancelsAll ps d j i k m' m''
    → CancelsAll ((key, stamp) ∷ ps) d j i k m m''
unfolding find_pressed
cancel_pressed-step ps n j i k d key stamp m m' m'' size h h' =
    elim (dec_lt j (length m.listeners)) [
      | yes inside ↦ ground arith
      | no out ↦
          let nothing : view j i k m ≡ none = view-out j i k m (omega (arith, out)) in ground arith
    ]

pub cancel_keys-view :
    (ps : List (ℕ × ℕ)) (n j i k d : ℕ) (accessor : Option ℕ) (m : DeviceManager Log)
    → n ≡ length m.listeners
    → Returns (CancelsAll ps d j i k m) (cancel_keys keep_event n ps d accessor m)
unfolding cancel_keys find_pressed
cancel_keys-view [] n j i k d accessor m size = ground arith
cancel_keys-view ((key, stamp) ∷ ps) n j i k d accessor m size =
    Returns->>= (Cancels (in_range n 0 j && key == k) d stamp j i k m)
      (CancelsAll ((key, stamp) ∷ ps) d j i k m)
      (cancel_for_all keep_event n 0 d key stamp accessor m)
      (cancel_keys keep_event n ps d accessor)
      (cancel_for_all-view n j i k 0 d key stamp accessor m (omega (arith, size)))
      (λ m' h.
        Returns-weaken (CancelsAll ps d j i k m') (CancelsAll ((key, stamp) ∷ ps) d j i k m)
          (cancel_keys keep_event n ps d accessor m')
          (cancel_keys-view ps n j i k d accessor m' (omega (arith, size, h.0.4)))
          (λ m'' h'. cancel_pressed-step ps n j i k d key stamp m m' m'' size h h'))

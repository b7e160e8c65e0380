-- ===== src/DeviceManager/Deselect.antt =====
-- btgtkdevicemanager.cc, `deselectAccessor` and `cancelDeviceKeys`: the keys of all devices, or of one,
-- are canceled.
use stmm_input_bt.Base.{
  ℕ, zero, suc, ◌+◌, ◌≤◌, ◌<◌, ◌≡◌, ◌≢◌, refl, sym, ap, ◌∙◌, false, List, [], Option, none, some,
  length, get_elem?, ◌==◌, arith, Returns, Returns->>=, Returns-weaken, ℕ_discrete, Option-cases,
  inl, inr,
}
use stmm_input_bt.DeviceManager.State.{
  KeysDevice, DeviceManager, reset_extra_data, find_pressed, get_device,
}
use stmm_input_bt.DeviceManager.Keys.{cancel_selected_accessor_keys}
use stmm_input_bt.DeviceManager.Devices.{
  enter_canceling, leave_canceling, cancel_devices, deselect_accessor,
}
use stmm_input_bt.DeviceManager.Views.{Log, keep_event, View, view, cancel_pressed}
use stmm_input_bt.DeviceManager.Cancel.{
  IsHeard, Untold, Canceled, IsCancelable, cancel_selected_accessor_keys_lem, get_device-same,
  get_device_bound,
}
use stmm_input_bt.DeviceManager.Leave.{
  leave_canceling-IsHeard, leave_canceling-devices, leave_canceling-selected,
}

-- The devices in the `n` slots from `i` on can be canceled, no listener was told of their keys, and no
-- two of them hold the same key.
pub record Pending (n i : ℕ) (m : DeviceManager Log) : Type 0 where
  pub can : (d : ℕ) → i ≤ d → d < i + n → (device : KeysDevice) × IsCancelable d device m
  pub untold : (d : ℕ) → i ≤ d → d < i + n → Untold d m
  pub disjoint :
      (d e k s t : ℕ) (device other : KeysDevice)
      → i ≤ d
      → d < e
      → e < i + n
      → get_device d m ≡ some device
      → get_device e m ≡ some other
      → find_pressed k device.pressed_keys ≡ some s
      → find_pressed k other.pressed_keys ≢ some t

-- The keys of these devices are canceled.
pub record AllCanceled (n i : ℕ) (m m' : DeviceManager Log) : Type 0 where
  pub heard : IsHeard m'
  pub emptied :
      (d : ℕ) (device : KeysDevice)
      → i ≤ d
      → d < i + n
      → get_device d m' ≡ some device
      → device.pressed_keys ≡ []
  pub before : (d : ℕ) → d < i → get_device d m' ≡ get_device d m
  pub same_size : length m'.devices ≡ length m.devices
  pub same_depth : m'.canceling_nested_depth ≡ m.canceling_nested_depth

-- A key that another device does not hold was told to nobody.
cancel_pressed-told :
    (k : ℕ) (ps : List (ℕ × ℕ)) (seen : Option View) (v : View)
    → ((s : ℕ) → find_pressed k ps ≢ some s)
    → cancel_pressed false k ps seen ≡ some v
    → seen ≡ some v
cancel_pressed-told k ps seen v free e = elim (Option-cases (find_pressed k ps)) [
  | inl nothing ↦ ground arith
  | inr (s, found) ↦ absurd (free s found)
]

Pending-next :
    (n i : ℕ) (device : KeysDevice) (m m' : DeviceManager Log)
    → Pending (suc n) i m
    → get_device i m ≡ some device
    → Canceled i device.pressed_keys m m'
    → Pending n (suc i) m'
Pending-next n i device m m' p at c = record {
  can = λ d low high.
      let (other, can) = p.can d (omega arith) (omega arith) in
      (
        other,
        record {
          at = c.others d (λ e. absurd (omega arith)) ∙ can.at;
          owned = can.owned;
          enabled = c.same_enabled ∙ can.enabled;
          w = can.w;
          window = can.window;
          selected_at = c.same_selected ∙ can.selected_at;
          window_at = ap (λ ws. get_elem? ws can.w) c.same_data ∙ can.window_at;
        },
      );
  untold = λ d low high j k stamp other v at_d found seen.
      let theirs : get_device d m ≡ some other =
        sym (c.others d (λ e. absurd (omega arith))) ∙ at_d in
      let other_device : (i == d) ≡ false = ground arith in
      let before : cancel_pressed false k device.pressed_keys (view j d k m) ≡ some v =
        ap (λ b. cancel_pressed b k device.pressed_keys (view j d k m)) (sym other_device)
        ∙ sym (c.seen j d k)
        ∙ seen in
      p.untold d (omega arith) (omega arith) j k stamp other v theirs found (
        cancel_pressed-told k device.pressed_keys (view j d k m) v
          (λ s held.
            p.disjoint i d k s stamp device other (omega arith) (omega arith) (omega arith) at
              theirs held found)
          before);
  disjoint = λ d e k s t one other low less high at_d at_e.
      p.disjoint d e k s t one other (omega arith) less (omega arith)
        (sym (c.others d (λ x. absurd (omega arith))) ∙ at_d)
        (sym (c.others e (λ x. absurd (omega arith))) ∙ at_e);
}

pub cancel_devices_lem :
    (n i : ℕ) (m : DeviceManager Log)
    → Pending n i m
    → IsHeard m
    → Returns (AllCanceled n i m) (cancel_devices keep_event n i m)
unfolding cancel_devices
cancel_devices_lem zero i m p h = record {
  heard = h;
  emptied = λ d device low high. absurd (omega arith);
  before = λ d less. refl;
  same_size = refl;
  same_depth = refl;
}
cancel_devices_lem (suc n) i m p h =
    let (device, can) = p.can i (omega arith) (omega arith) in
    Returns->>= (λ m'. Canceled i device.pressed_keys m m' × (IsHeard m → Untold i m → IsHeard m'))
      (AllCanceled (suc n) i m) (cancel_selected_accessor_keys keep_event i m)
      (cancel_devices keep_event n (suc i)) (cancel_selected_accessor_keys_lem i device m can)
      (λ m' c.
        Returns-weaken (AllCanceled n (suc i) m') (AllCanceled (suc n) i m)
          (cancel_devices keep_event n (suc i) m')
          (cancel_devices_lem n (suc i) m' (Pending-next n i device m m' p can.at c.0)
            (c.1 h (p.untold i (omega arith) (omega arith))))
          (λ m'' all. record {
            heard = all.heard;
            emptied = λ d other low high at. elim (ℕ_discrete i d) [
              | yes here ↦
                  c.0.emptied other
                    (sym (all.before i (omega arith)) ∙ ap (λ x. get_device x m'') here ∙ at)
              | no later ↦ all.emptied d other (omega (arith, low, later)) (omega (arith, high)) at
            ];
            before = λ d less.
                all.before d (omega (arith, less)) ∙ c.0.others d (λ e. absurd (omega arith));
            same_size = all.same_size ∙ c.0.same_size;
            same_depth = all.same_depth ∙ c.0.same_depth;
          }))

pub Pending-enter :
    (n i : ℕ) (m : DeviceManager Log) → Pending n i m → Pending n i (enter_canceling m)
unfolding get_device view
Pending-enter n i m p = record {
  can = λ d low high.
      let (device, can) = p.can d low high in
      (
        device,
        record {
          at = can.at;
          owned = can.owned;
          enabled = can.enabled;
          w = can.w;
          window = can.window;
          selected_at = can.selected_at;
          window_at = can.window_at;
        },
      );
  untold = p.untold;
  disjoint = p.disjoint;
}

pub entered-IsHeard : (m : DeviceManager Log) → IsHeard m → IsHeard (enter_canceling m)
unfolding get_device view
entered-IsHeard m h = h

deselected-IsHeard :
    (reset_all : DeviceManager Log → DeviceManager Log)
    → ((m : DeviceManager Log) → reset_all m ≡ reset_extra_data m)
    → (m : DeviceManager Log) → IsHeard m
    → IsHeard (leave_canceling reset_all (record m { selected = none }))
unfolding get_device view
deselected-IsHeard reset_all resets m h =
    leave_canceling-IsHeard reset_all resets (record m { selected = none }) h

-- With listeners that only note what they hear, and so never call the manager back: `deselectAccessor`
-- with all devices present, a window selected and key events enabled, where no listener was told of a
-- cancel yet, no two devices hold the same key and the library's reset only resets the listeners'
-- data: it returns, no window is selected, no key of any device is pressed, and the listeners have
-- heard as they should, as many releases as presses of each key.
pub deselect_accessor_lem :
    (reset_all : DeviceManager Log → DeviceManager Log)
    → ((m : DeviceManager Log) → reset_all m ≡ reset_extra_data m)
    → (m : DeviceManager Log) → Pending (length m.devices) 0 m
    → IsHeard m
    → Returns
        (λ m'.
          IsHeard m'
          × (m'.selected ≡ none)
          × ((d : ℕ) (device : KeysDevice)
              → get_device d m' ≡ some device
              → device.pressed_keys ≡ []))
        (deselect_accessor keep_event reset_all m)
unfolding deselect_accessor get_device
deselect_accessor_lem reset_all resets m p h =
    Returns->>= (AllCanceled (length m.devices) 0 (enter_canceling m))
      (λ m'.
        IsHeard m'
        × (m'.selected ≡ none)
        × ((d : ℕ) (device : KeysDevice)
            → get_device d m' ≡ some device
            → device.pressed_keys ≡ []))
      (cancel_devices keep_event (length m.devices) 0 (enter_canceling m))
      (λ m'. some (leave_canceling reset_all (record m' { selected = none })))
      (cancel_devices_lem (length m.devices) 0 (enter_canceling m)
        (Pending-enter (length m.devices) 0 m p) (entered-IsHeard m h))
      (λ m' all. (
        deselected-IsHeard reset_all resets m' all.heard,
        leave_canceling-selected reset_all resets (record m' { selected = none }),
        (λ d device at.
            let there : get_device d m' ≡ some device =
              sym (
                get_device-same d (record m' { selected = none })
                  (leave_canceling reset_all (record m' { selected = none }))
                  (leave_canceling-devices reset_all resets (record m' { selected = none })))
              ∙ at in
            all.emptied d device (omega arith)
              (omega (arith, get_device_bound d device m' there, all.same_size)) there),
      ))

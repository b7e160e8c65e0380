-- ===== src/DeviceManager/Leave.antt =====
-- btgtkdevicemanager.cc: the end of a canceling, which may reset the listeners' data.
use stmm_input_bt.Base.{
  ℕ, ◌-◌, ◌≡◌, none, some, get_elem?, map, ◌==◌, arith, Option-cases, Bool-cases, inl, inr,
  get_elem?-map-some, get_elem?-map-none,
}
use stmm_input_bt.DeviceManager.State.{
  DeviceManager, get_device, reset_listener, reset_extra_data, is_key_canceled,
}
use stmm_input_bt.DeviceManager.Devices.{leave_canceling}
use stmm_input_bt.DeviceManager.Views.{heard_presses, heard_releases, Log, View, view}
use stmm_input_bt.DeviceManager.Cancel.{IsHeard}

-- Leaving the outermost canceling, the listeners' data is reset, which no view shows but for the
-- mark of the key.
reset_view :
    (j i k : ℕ) (m : DeviceManager Log) (v : View)
    → view j i k (reset_extra_data m) ≡ some v
    → (v0 : View) × (view j i k m ≡ some v0)
      × (v.presses ≡ v0.presses)
      × (v.releases ≡ v0.releases)
      × (v.added ≡ v0.added)
unfolding view
reset_view j i k m v e = elim (Option-cases (get_elem? m.listeners j)) [
  | inl nothing ↦
      let gone : get_elem? (map reset_listener m.listeners) j ≡ none =
        get_elem?-map-none reset_listener m.listeners j nothing in
      absurd (ground arith)
  | inr (listener, at) ↦
      let there : get_elem? (map reset_listener m.listeners) j ≡ some (reset_listener listener) =
        get_elem?-map-some reset_listener m.listeners j listener at in
      (
        record {
          added = listener.added_time_stamp;
          canceled = is_key_canceled k listener.canceled_keys;
          presses = heard_presses j i k m.world;
          releases = heard_releases j i k m.world;
        },
        ground arith,
        ground arith,
        ground arith,
        ground arith,
      )
]

reset-IsHeard : (m : DeviceManager Log) → IsHeard m → IsHeard (reset_extra_data m)
unfolding get_device
reset-IsHeard m h j i k v seen =
    let (v0, before, presses, releases, added) = reset_view j i k m v seen in
    rw (presses, releases, added) (h j i k v0 before)

pub leave_canceling-IsHeard :
    (reset_all : DeviceManager Log → DeviceManager Log)
    → ((m : DeviceManager Log) → reset_all m ≡ reset_extra_data m)
    → (m : DeviceManager Log) → IsHeard m
    → IsHeard (leave_canceling reset_all m)
unfolding leave_canceling get_device view
leave_canceling-IsHeard reset_all resets m h =
    elim (Bool-cases (m.canceling_nested_depth - 1 == 0)) [
      | inl outermost ↦
          rw
            (outermost, resets (record m { canceling_nested_depth = m.canceling_nested_depth - 1 }))
            (reset-IsHeard (record m { canceling_nested_depth = m.canceling_nested_depth - 1 }) h)
      | inr nested ↦ rw nested h
    ]

pub leave_canceling-devices :
    (reset_all : DeviceManager Log → DeviceManager Log)
    → ((m : DeviceManager Log) → reset_all m ≡ reset_extra_data m)
    → (m : DeviceManager Log) → (leave_canceling reset_all m).devices ≡ m.devices
unfolding leave_canceling
leave_canceling-devices reset_all resets m =
    ground (arith, resets (record m { canceling_nested_depth = m.canceling_nested_depth - 1 }))

pub leave_canceling-selected :
    (reset_all : DeviceManager Log → DeviceManager Log)
    → ((m : DeviceManager Log) → reset_all m ≡ reset_extra_data m)
    → (m : DeviceManager Log) → (leave_canceling reset_all m).selected ≡ m.selected
unfolding leave_canceling
leave_canceling-selected reset_all resets m =
    ground (arith, resets (record m { canceling_nested_depth = m.canceling_nested_depth - 1 }))

-- ===== src/DeviceManager/Accessors.antt =====
-- btgtkdevicemanager.cc and btgtkwindowdata.h: the windows whose accessors were added, and the one that
-- is selected.
use stmm_input_bt.Base.{
  ℕ, zero, suc, Bool, true, false, not, ◌&&◌, List, [], ◌∷◌, ◌++◌, Option, none, some, length,
  get_elem?, set, ◌==◌, if◌then◌else◌, ◌>>=◌, is_some,
}
use stmm_input_bt.DeviceManager.State.{KeyEvent, DeviceManager}
use stmm_input_bt.DeviceManager.Devices.{deselect_accessor}

-- What GTK says of the accessors: whether one's window is deleted, which window it is, and whether the
-- window is realized, visible and active.
pub record Gui : Type 0 where
  pub is_deleted : ℕ → Bool
  pub window_of : ℕ → ℕ
  pub is_active : ℕ → Bool

-- `findWindow`: the place of the window.
unfoldable pub find_window : ℕ → List (ℕ × ℕ) → Option ℕ
find_window window [] = none
find_window window ((other, w) ∷ rest) =
    let later = (do i ← find_window window rest; some (suc i)) in
    if other == window then some 0 else later

-- `m_aGtkWindowData.erase`
unfoldable pub erase_at : ℕ → List (ℕ × ℕ) → List (ℕ × ℕ)
erase_at i [] = []
erase_at zero (x ∷ xs) = xs
erase_at (suc i) (x ∷ xs) = x ∷ erase_at i xs

abbrev pub is_index : ℕ → Option ℕ → Bool
is_index w none = false
is_index w (some other) = other == w

module _ {W : Type 0} (call_if : ℕ → KeyEvent → DeviceManager W → Option (DeviceManager W))
    (reset_all : DeviceManager W → DeviceManager W) where
  -- `hasAccessor`; an accessor that is null or of another library is `none`.
  unfoldable pub has_accessor : Gui → Option ℕ → DeviceManager W → Option ℕ
  unfolding find_window
  has_accessor gui none m = none
  has_accessor gui (some a) m = find_window (gui.window_of a) m.gtk_windows

  -- `removeAccessor` of the window at a place.
  unfoldable pub remove_accessor_at : ℕ → DeviceManager W → Option (DeviceManager W)
  unfolding erase_at
  remove_accessor_at i m = do
    (gtk_window, w) ← get_elem? m.gtk_windows i
    window ← get_elem? m.window_data w
    let m' = record m {
      window_data = set m.window_data w (record window { is_enabled = false });
      gtk_windows = erase_at i m.gtk_windows;
    }
    if is_index w m.selected then deselect_accessor call_if reset_all m' else some m'

  -- `removeAccessor`
  unfoldable pub remove_accessor :
      Gui → Option ℕ → DeviceManager W → Option (DeviceManager W × Bool)
  unfolding has_accessor remove_accessor_at
  remove_accessor gui accessor m = elim (has_accessor gui accessor m) [
    | none ↦ some (m, false)
    | some i ↦ do m' ← remove_accessor_at i m; some (m', true)
  ]

  -- `addAccessor` from the new window data on, which `GtkWindowDataFactory` makes and `enable` sets.
  unfoldable pub add_window : Gui → ℕ → DeviceManager W → Option (DeviceManager W)
  unfolding find_window remove_accessor_at
  add_window gui a m = do
    let w = length m.window_data
    let m' = record m {
      window_data = m.window_data ++ (record { accessor = some a; is_enabled = true } ∷ []);
      gtk_windows = m.gtk_windows ++ ((gui.window_of a, w) ∷ []);
    }
    elim m'.selected [
      | none ↦ some (if gui.is_active a then record m' { selected = some w } else m')
      | some s ↦
          if gui.is_active a
          then (do
            window ← get_elem? m'.window_data s
            other ← window.accessor
            m'' ←
                (if gui.is_deleted other
                  then (do
                    i ← find_window (gui.window_of other) m'.gtk_windows
                    remove_accessor_at i m')
                  else deselect_accessor call_if reset_all m')
            some (record m'' { selected = some w }))
          else deselect_accessor call_if reset_all m'
    ]

  -- `addAccessor`
  unfoldable pub add_accessor : Gui → Option ℕ → DeviceManager W → Option (DeviceManager W × Bool)
  unfolding add_window has_accessor remove_accessor_at
  add_accessor gui none m = some (m, false)
  add_accessor gui (some a) m =
      if gui.is_deleted a
      then elim (has_accessor gui (some a) m) [
        | none ↦ some (m, false)
        | some i ↦ do m' ← remove_accessor_at i m; some (m', false)
      ]
      else elim (has_accessor gui (some a) m) [
        | some i ↦ some (m, false)
        | none ↦ do m' ← add_window gui a m; some (m', true)
      ]

  -- `onIsActiveChanged`
  unfoldable pub on_is_active_changed : Gui → ℕ → DeviceManager W → Option (DeviceManager W)
  on_is_active_changed gui w m = do
    window ← get_elem? m.window_data w
    if not window.is_enabled then some m else (do
      a ← window.accessor
      let is_active = not (gui.is_deleted a) && gui.is_active a
      let is_selected = is_index w m.selected
      if is_active
          then (if is_selected then some m else (do
            m' ← (if is_some m.selected then deselect_accessor call_if reset_all m else some m)
            some (record m' { selected = some w })))
          else (if is_selected then deselect_accessor call_if reset_all m else some m))

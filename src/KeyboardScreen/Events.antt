-- ===== src/KeyboardScreen/Events.antt =====
-- keyboardscreen.cc: the handlers of the events, with the calls of btkbwindow.cc that press and release
-- keys. Whether an event is of the window, and whether the window is active, are arguments.
use stmm_input_bt.Base.{
  ℕ, ◌-◌, Bool, true, false, not, ◌&&◌, Option, none, some, ℤ, pos, leb_ℤ, ltb_ℤ, ◌-ℤ◌, ltb, ◌==◌,
  if◌then◌else◌, ◌>>=◌, ◌>>◌, assert, List, [], ◌∷◌,
}
use stmm_input_bt.KeyClient.State.{Key}
use stmm_input_bt.PressedKeys.{
  PressedKey, keyboard, mouse, touch, KeyWindow, null_key, press_key, release_key, finalize_keys,
}
use stmm_input_bt.Grid.State.{Grid}
use stmm_input_bt.KeyboardScreen.Cells.{Places, get_key_from_coords}

abbrev pub exit_button_pix : ℤ
exit_button_pix = pos 16

-- Half of it.
abbrev pub exit_button_half : ℤ
exit_button_half = pos 8

-- `KeyboardScreen`, with the window that it belongs to.
pub record Screen (C : Type 0) : Type 0 where
  pub running : Bool
  pub fullscreen : Bool
  pub canvas_x : ℤ
  pub canvas_y : ℤ
  pub exit_center_x : ℤ
  pub exit_center_y : ℤ
  pub places : Places
  pub grid : Grid
  pub window : KeyWindow C

pub data TouchType : Type 0 where
  touch_begin touch_update touch_end touch_cancel : TouchType

-- An event, with whether it is of the window.
pub data Event : Type 0 where
  button_pressed : Bool → ℤ → ℤ → Event
  button_released : Bool → Event
  touched : Bool → TouchType → ℕ → ℤ → ℤ → Event
  key_pressed key_released : ℕ → Event
  active_changed : Bool → Event
  changed_to : Bool → Event

-- The point is on the exit button.
abbrev pub is_on_exit : {C : Type 0} → Screen C → ℤ → ℤ → Bool
is_on_exit s x y =
    leb_ℤ (s.exit_center_x -ℤ exit_button_half) x
    && leb_ℤ (s.exit_center_y -ℤ exit_button_half) y
    && ltb_ℤ (x -ℤ exit_button_half) s.exit_center_x
    && ltb_ℤ (y -ℤ exit_button_half) s.exit_center_y

-- `convertKeyCodeToHardwareKey`
unfoldable pub convert_key_code : ℕ → Option ℕ
convert_key_code code = if ltb code 8 then none else some (code - 8)

abbrev pub source_of_key : ℕ → PressedKey
source_of_key key = record { key = key; type = keyboard; finger = none }

abbrev pub source_of_mouse : ℕ → PressedKey
source_of_mouse key = record { key = key; type = mouse; finger = none }

abbrev pub source_of_finger : ℕ → ℕ → PressedKey
source_of_finger key finger = record { key = key; type = touch; finger = some finger }

module _ {C : Type 0} (is_connected : C → Bool) (send : Key → C → Option C) where
  -- `pressKeyboardKey`, `pressMouseKey` and `pressFingerKey`
  unfoldable pub press_checked : KeyWindow C → PressedKey → Option (KeyWindow C × Bool)
  press_checked w q = do assert (not (q.key == null_key)); press_key is_connected send w q

  -- `releaseKeyboardKey`
  unfoldable pub release_keyboard_key : KeyWindow C → ℕ → Option (KeyWindow C × Bool)
  release_keyboard_key w key = do
    assert (not (key == null_key))
    release_key is_connected send w (source_of_key key) false

  -- `releaseMouseKey`
  unfoldable pub release_mouse_key : KeyWindow C → Option (KeyWindow C × Bool)
  release_mouse_key w = release_key is_connected send w (source_of_mouse null_key) false

  -- `releaseFingerKey`
  unfoldable pub release_finger_key : KeyWindow C → ℕ → Bool → Option (KeyWindow C × Bool)
  release_finger_key w finger cancel =
      release_key is_connected send w (source_of_finger null_key finger) cancel

  -- The screen with the window of a call.
  abbrev pub with_window : Screen C → Option (KeyWindow C × Bool) → Option (Screen C × Bool)
  with_window s result = do (w, found) ← result; some (record s { window = w }, true)

  -- `onMouseButtonPressed`
  unfoldable pub on_mouse_button_pressed : Bool → ℤ → ℤ → Screen C → Option (Screen C × Bool)
  unfolding press_checked
  on_mouse_button_pressed ours x y s =
      if not s.running
      then some (s, false)
      else if not ours
      then some (s, false)
      else if is_on_exit s (x -ℤ s.canvas_x) (y -ℤ s.canvas_y)
      then some (record s { running = false }, true)
      else (do
        key ← get_key_from_coords s.grid s.places (x -ℤ s.canvas_x) (y -ℤ s.canvas_y)
        if not (key == null_key)
            then with_window s (press_checked s.window (source_of_mouse key))
            else some (s, true))

  -- `onMouseButtonReleased`
  unfoldable pub on_mouse_button_released : Bool → Screen C → Option (Screen C × Bool)
  unfolding release_mouse_key
  on_mouse_button_released ours s =
      if not s.running
      then some (s, false)
      else if not ours
      then some (s, false)
      else with_window s (release_mouse_key s.window)

  -- `onTouchEvent`, of a finger that is not null.
  unfoldable pub on_touch_event : Bool → TouchType → ℕ → ℤ → ℤ → Screen C → Option (Screen C × Bool)
  unfolding press_checked release_finger_key
  on_touch_event ours type finger x y s =
      if not s.running then some (s, false) else if not ours then some (s, false) else elim type [
        | touch_begin ↦ do
          key ← get_key_from_coords s.grid s.places (x -ℤ s.canvas_x) (y -ℤ s.canvas_y)
          if not (key == null_key)
              then with_window s (press_checked s.window (source_of_finger key finger))
              else some (s, true)
        | touch_update ↦ some (s, true)
        | touch_end ↦ with_window s (release_finger_key s.window finger false)
        | touch_cancel ↦ with_window s (release_finger_key s.window finger true)
      ]

  -- `onKeyPressEvent`
  unfoldable pub on_key_press_event : ℕ → Screen C → Option (Screen C × Bool)
  unfolding press_checked convert_key_code
  on_key_press_event code s =
      if not s.running then some (s, false) else elim (convert_key_code code) [
        | none ↦ some (s, false)
        | some key ↦
            if not (key == null_key)
            then with_window s (press_checked s.window (source_of_key key))
            else some (s, true)
      ]

  -- `onKeyReleaseEvent`
  unfoldable pub on_key_release_event : ℕ → Screen C → Option (Screen C × Bool)
  unfolding release_keyboard_key convert_key_code
  on_key_release_event code s =
      if not s.running then some (s, false) else elim (convert_key_code code) [
        | none ↦ some (s, false)
        | some key ↦
            if not (key == null_key)
            then with_window s (release_keyboard_key s.window key)
            else some (s, true)
      ]

  -- `onSigIsActiveChanged`
  unfoldable pub on_sig_is_active_changed : Bool → Screen C → Option (Screen C)
  on_sig_is_active_changed is_active s =
      if s.running && not is_active
      then (do w ← finalize_keys is_connected send s.window; some (record s { window = w }))
      else some s

  -- `changeTo`
  abbrev pub change_to : Bool → Screen C → Screen C
  change_to fullscreen s = record s { fullscreen = fullscreen; running = true }

  -- An event goes to its handler.
  unfoldable pub handle : Event → Screen C → Option (Screen C)
  unfolding on_mouse_button_pressed on_mouse_button_released on_touch_event on_key_press_event
      on_key_release_event on_sig_is_active_changed
  handle (button_pressed ours x y) s = do (s', done) ← on_mouse_button_pressed ours x y s; some s'
  handle (button_released ours) s = do (s', done) ← on_mouse_button_released ours s; some s'
  handle (touched ours type finger x y) s = do
    (s', done) ← on_touch_event ours type finger x y s
    some s'
  handle (key_pressed code) s = do (s', done) ← on_key_press_event code s; some s'
  handle (key_released code) s = do (s', done) ← on_key_release_event code s; some s'
  handle (active_changed is_active) s = on_sig_is_active_changed is_active s
  handle (changed_to fullscreen) s = some (change_to fullscreen s)

  unfoldable pub handle_all : List Event → Screen C → Option (Screen C)
  handle_all [] s = some s
  handle_all (event ∷ events) s = do s' ← handle event s; handle_all events s'

-- ===== src/KeyboardScreen/Balance.antt =====
-- keyboardscreen.cc: whatever events come, no assertion fails and the client is told of presses and releases
-- in turn.
use stmm_input_bt.Base.{
  ℕ, ◌≡◌, refl, subst, Bool, true, false, not, ◌&&◌, List, [], ◌∷◌, Option, none, some, ℤ, ◌-ℤ◌,
  ◌==◌, if◌then◌else◌, ◌>>=◌, Returns, Returns->>=,
}
use stmm_input_bt.KeyClient.State.{Key}
use stmm_input_bt.PressedKeys.{PressedKey, KeyWindow, null_key, finalize_keys}
use stmm_input_bt.PressedKeys.Counts.{record_call, IsBalanced}
use stmm_input_bt.PressedKeys.Balance.{
  press_key-IsBalanced, release_key-IsBalanced, release_all-IsBalanced,
}
use stmm_input_bt.Grid.Wellformed.{IsGrid}
use stmm_input_bt.KeyboardScreen.Cells.{get_key_from_coords}
use stmm_input_bt.KeyboardScreen.Places.{ArePlaces}
use stmm_input_bt.KeyboardScreen.HitTest.{IsKeyAt, get_key_from_coords_lem}
use stmm_input_bt.KeyboardScreen.Events.{
  Screen, TouchType, touch_begin, touch_update, touch_end, touch_cancel, Event, button_pressed,
  button_released, touched, key_pressed, key_released, active_changed, changed_to, is_on_exit,
  convert_key_code, source_of_key, source_of_mouse, source_of_finger, press_checked,
  release_keyboard_key, release_mouse_key, release_finger_key, with_window, on_mouse_button_pressed,
  on_mouse_button_released, on_touch_event, on_key_press_event, on_key_release_event,
  on_sig_is_active_changed, handle, handle_all,
}

-- The grid is well-formed, the places are its own, and the window is balanced.
pub record IsReady (s : Screen (List Key)) : Type 0 where
  pub grid : IsGrid s.grid
  pub pix_w : ℕ
  pub pix_h : ℕ
  pub places : ArePlaces pix_w pix_h s.grid s.places
  pub window : IsBalanced s.window

-- A test whose outcome is known in its branches.
Returns-if :
    {A : Type 0} (P : A → Type 0) (b : Bool) (yes_branch no_branch : Option A)
    → (b ≡ true → Returns P yes_branch)
    → (b ≡ false → Returns P no_branch)
    → Returns P (if b then yes_branch else no_branch)
Returns-if P true yes_branch no_branch h k = h refl
Returns-if P false yes_branch no_branch h k = k refl

abbrev Done : Screen (List Key) × Bool → Type 0
Done r = IsReady r.0

module _ (is_connected : List Key → Bool) where
  with_window-IsReady :
      (s : Screen (List Key)) (result : Option (KeyWindow (List Key) × Bool))
      → IsReady s
      → Returns (λ (r : KeyWindow (List Key) × Bool). IsBalanced r.0) result
      → Returns Done (with_window is_connected record_call s result)
  with_window-IsReady s none h k = k
  with_window-IsReady s (some (w, found)) h k = record {
    grid = h.grid;
    pix_w = h.pix_w;
    pix_h = h.pix_h;
    places = h.places;
    window = k;
  }

  -- A key that is not HK_NULL is pressed, and else nothing is done.
  press-IsReady :
      (s : Screen (List Key)) (q : PressedKey)
      → IsReady s
      → Returns Done (
          if not (q.key == null_key)
          then with_window is_connected record_call s
              (press_checked is_connected record_call s.window q)
          else some (s, true))
  unfolding press_checked
  press-IsReady s q h =
      Returns-if Done (not (q.key == null_key))
        (with_window is_connected record_call s (press_checked is_connected record_call s.window q))
        (some (s, true))
        (λ a_key.
          with_window-IsReady s (press_checked is_connected record_call s.window q) h
            (rw a_key (press_key-IsBalanced is_connected s.window q h.window)))
        (λ no_key. h)

  -- The key at a point is looked up and pressed.
  press_at-IsReady :
      (s : Screen (List Key)) (x y : ℤ) (source : ℕ → PressedKey)
      → ((key : ℕ) → (source key).key ≡ key)
      → IsReady s
      → Returns Done (do
        key ← get_key_from_coords s.grid s.places x y
        if not (key == null_key)
            then with_window is_connected record_call s
                (press_checked is_connected record_call s.window (source key))
            else some (s, true))
  press_at-IsReady s x y source same h =
      Returns->>= (IsKeyAt s.grid s.places x y) Done (get_key_from_coords s.grid s.places x y) _
        (get_key_from_coords_lem s.grid s.places x y h.pix_w h.pix_h h.grid h.places)
        (λ key found.
          subst
            (λ k. Returns Done (
              if not (k == null_key)
              then with_window is_connected record_call s
                  (press_checked is_connected record_call s.window (source key))
              else some (s, true)))
            (same key) (press-IsReady s (source key) h))

  -- An event that is not for the screen is not handled.
  guarded :
      (s : Screen (List Key)) (ours : Bool) (handler : Option (Screen (List Key) × Bool))
      → IsReady s
      → Returns Done handler
      → Returns Done
          (if not s.running then some (s, false) else if not ours then some (s, false) else handler)
  guarded s ours handler h k =
      Returns-if Done (not s.running) (some (s, false))
        (if not ours then some (s, false) else handler) (λ stopped. h)
        (λ running. Returns-if Done (not ours) (some (s, false)) handler (λ other. h) (λ mine. k))

  button_pressed-IsReady :
      (ours : Bool) (x y : ℤ) (s : Screen (List Key))
      → IsReady s
      → Returns Done (on_mouse_button_pressed is_connected record_call ours x y s)
  unfolding on_mouse_button_pressed
  button_pressed-IsReady ours x y s h = guarded s ours _ h (
      Returns-if Done (is_on_exit s (x -ℤ s.canvas_x) (y -ℤ s.canvas_y))
        (some (record s { running = false }, true)) _
        (λ exit. record {
          grid = h.grid;
          pix_w = h.pix_w;
          pix_h = h.pix_h;
          places = h.places;
          window = h.window;
        })
        (λ on_keys.
          press_at-IsReady s (x -ℤ s.canvas_x) (y -ℤ s.canvas_y) source_of_mouse (λ key. refl) h))

  button_released-IsReady :
      (ours : Bool) (s : Screen (List Key))
      → IsReady s
      → Returns Done (on_mouse_button_released is_connected record_call ours s)
  unfolding on_mouse_button_released release_mouse_key
  button_released-IsReady ours s h = guarded s ours _ h (
      with_window-IsReady s (release_mouse_key is_connected record_call s.window) h
        (release_key-IsBalanced is_connected s.window (source_of_mouse null_key) false h.window))

  touched-IsReady :
      (ours : Bool) (type : TouchType) (finger : ℕ) (x y : ℤ) (s : Screen (List Key))
      → IsReady s
      → Returns Done (on_touch_event is_connected record_call ours type finger x y s)
  unfolding on_touch_event release_finger_key
  touched-IsReady ours touch_begin finger x y s h = guarded s ours _ h (
      press_at-IsReady s (x -ℤ s.canvas_x) (y -ℤ s.canvas_y) (λ key. source_of_finger key finger)
        (λ key. refl) h)
  touched-IsReady ours touch_update finger x y s h = guarded s ours (some (s, true)) h h
  touched-IsReady ours touch_end finger x y s h = guarded s ours _ h (
      with_window-IsReady s (release_finger_key is_connected record_call s.window finger false) h (
        release_key-IsBalanced is_connected s.window (source_of_finger null_key finger) false
          h.window))
  touched-IsReady ours touch_cancel finger x y s h = guarded s ours _ h (
      with_window-IsReady s (release_finger_key is_connected record_call s.window finger true) h (
        release_key-IsBalanced is_connected s.window (source_of_finger null_key finger) true
          h.window))

  -- A key code that means a key.
  with_code :
      (s : Screen (List Key)) (code : Option ℕ) (handler : ℕ → Option (Screen (List Key) × Bool))
      → IsReady s
      → ((key : ℕ) → Returns Done (handler key))
      → Returns Done (
          if not s.running
          then some (s, false)
          else elim code [ none ↦ some (s, false) | some key ↦ handler key ])
  with_code s none handler h k =
      Returns-if Done (not s.running) (some (s, false)) (some (s, false)) (λ a. h) (λ a. h)
  with_code s (some key) handler h k =
      Returns-if Done (not s.running) (some (s, false)) (handler key) (λ a. h) (λ a. k key)

  key_pressed-IsReady :
      (code : ℕ) (s : Screen (List Key))
      → IsReady s
      → Returns Done (on_key_press_event is_connected record_call code s)
  unfolding on_key_press_event
  key_pressed-IsReady code s h =
      with_code s (convert_key_code code) _ h (λ key. press-IsReady s (source_of_key key) h)

  key_released-IsReady :
      (code : ℕ) (s : Screen (List Key))
      → IsReady s
      → Returns Done (on_key_release_event is_connected record_call code s)
  unfolding on_key_release_event release_keyboard_key
  key_released-IsReady code s h = with_code s (convert_key_code code) _ h (λ key.
      Returns-if Done (not (key == null_key))
        (with_window is_connected record_call s
          (release_keyboard_key is_connected record_call s.window key))
        (some (s, true))
        (λ a_key.
          with_window-IsReady s (release_keyboard_key is_connected record_call s.window key) h (
            rw a_key
              (release_key-IsBalanced is_connected s.window (source_of_key key) false h.window)))
        (λ no_key. h))

  active_changed-IsReady :
      (is_active : Bool) (s : Screen (List Key))
      → IsReady s
      → Returns IsReady (on_sig_is_active_changed is_connected record_call is_active s)
  unfolding on_sig_is_active_changed finalize_keys
  active_changed-IsReady is_active s h =
      Returns-if IsReady (s.running && not is_active) _ (some s)
        (λ left.
          Returns->>= IsBalanced IsReady (finalize_keys is_connected record_call s.window)
            (λ w. some (record s { window = w }))
            (release_all-IsBalanced is_connected s.window.pressed s.window h.window)
            (λ w balanced. record {
              grid = h.grid;
              pix_w = h.pix_w;
              pix_h = h.pix_h;
              places = h.places;
              window = balanced;
            }))
        (λ stays. h)

  -- What a handler is followed by.
  handled :
      (result : Option (Screen (List Key) × Bool))
      → Returns Done result
      → Returns IsReady (do (s', done) ← result; some s')
  handled none h = h
  handled (some (s', done)) h = h

  handle-IsReady :
      (event : Event) (s : Screen (List Key))
      → IsReady s
      → Returns IsReady (handle is_connected record_call event s)
  unfolding handle
  handle-IsReady (button_pressed ours x y) s h = handled _ (button_pressed-IsReady ours x y s h)
  handle-IsReady (button_released ours) s h = handled _ (button_released-IsReady ours s h)
  handle-IsReady (touched ours type finger x y) s h =
      handled _ (touched-IsReady ours type finger x y s h)
  handle-IsReady (key_pressed code) s h = handled _ (key_pressed-IsReady code s h)
  handle-IsReady (key_released code) s h = handled _ (key_released-IsReady code s h)
  handle-IsReady (active_changed is_active) s h = active_changed-IsReady is_active s h
  handle-IsReady (changed_to fullscreen) s h = record {
    grid = h.grid;
    pix_w = h.pix_w;
    pix_h = h.pix_h;
    places = h.places;
    window = h.window;
  }

  -- Any sequence of events of a screen with a well-formed grid, its places and a balanced window: no
  -- assertion fails, and the same holds after it, so of every key the client was told as many releases
  -- as presses, and one press more exactly if the key is still held.
  pub handle_all-IsReady :
      (events : List Event) (s : Screen (List Key))
      → IsReady s
      → Returns IsReady (handle_all is_connected record_call events s)
  unfolding handle_all
  handle_all-IsReady [] s h = h
  handle_all-IsReady (event ∷ events) s h =
      Returns->>= IsReady IsReady (handle is_connected record_call event s)
        (handle_all is_connected record_call events) (handle-IsReady event s h)
        (λ s' ready. handle_all-IsReady events s' ready)

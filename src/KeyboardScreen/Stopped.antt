-- ===== src/KeyboardScreen/Stopped.antt =====
-- keyboardscreen.cc: a screen that was left by its exit button.
use stmm_input_bt.Base.{
  ℤ, ◌-ℤ◌, ◌≡◌, refl, Bool, true, false, not, ◌&&◌, List, [], ◌∷◌, Option, some, arith,
}
use stmm_input_bt.KeyClient.State.{Key}
use stmm_input_bt.KeyboardScreen.Events.{
  Screen, is_on_exit, Event, button_pressed, button_released, touched, key_pressed, key_released,
  active_changed, changed_to, on_mouse_button_pressed, on_mouse_button_released, on_touch_event,
  on_key_press_event, on_key_release_event, on_sig_is_active_changed, handle, handle_all,
}

-- The events do not bring the screen back.
abbrev pub is_start : Event → Bool
is_start (changed_to fullscreen) = true
is_start _ = false

abbrev pub has_no_start : List Event → Bool
has_no_start [] = true
has_no_start (event ∷ events) = not (is_start event) && has_no_start events

module _ {C : Type 0} (is_connected : C → Bool) (send : Key → C → Option C) where
  handle-stopped :
      (event : Event) (s : Screen C)
      → s.running ≡ false
      → is_start event ≡ false
      → handle is_connected send event s ≡ some s
  unfolding handle on_mouse_button_pressed on_mouse_button_released on_touch_event
      on_key_press_event on_key_release_event on_sig_is_active_changed
  handle-stopped (button_pressed ours x y) s stopped h = rw stopped refl
  handle-stopped (button_released ours) s stopped h = rw stopped refl
  handle-stopped (touched ours type finger x y) s stopped h = rw stopped refl
  handle-stopped (key_pressed code) s stopped h = rw stopped refl
  handle-stopped (key_released code) s stopped h = rw stopped refl
  handle-stopped (active_changed is_active) s stopped h = rw stopped refl
  handle-stopped (changed_to fullscreen) s stopped h = absurd (ground arith)

  handle_all-stopped :
      (events : List Event) (s : Screen C)
      → s.running ≡ false
      → has_no_start events ≡ true
      → handle_all is_connected send events s ≡ some s
  unfolding handle_all
  handle_all-stopped [] s stopped h = refl
  handle_all-stopped (event ∷ events) s stopped h =
      let first : is_start event ≡ false = ground arith in
      let rest : has_no_start events ≡ true = ground arith in
      rw (handle-stopped event s stopped first) (handle_all-stopped events s stopped rest)

  -- The exit button of a running screen, pressed while any keys are held: whatever events follow it but the
  -- screen's start, the window is as it was. Neither the release of a key that is still held nor the
  -- window's becoming inactive releases the key, and the client is told nothing.
  pub handle_all-exit :
      (events : List Event) (x y : ℤ) (s : Screen C)
      → s.running ≡ true
      → is_on_exit s (x -ℤ s.canvas_x) (y -ℤ s.canvas_y) ≡ true
      → has_no_start events ≡ true
      → handle_all is_connected send (button_pressed true x y ∷ events) s
        ≡ some (record s { running = false })
  unfolding handle_all handle on_mouse_button_pressed
  handle_all-exit events x y s runs exit h =
      rw (runs, exit) (handle_all-stopped events (record s { running = false }) refl h)

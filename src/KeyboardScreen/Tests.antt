-- ===== src/KeyboardScreen/Tests.antt =====
-- A screen with one key.
use stmm_input_bt.Base.{
  ℕ, zero, suc, ◌*◌, ◌/◌, ◌≤◌, ◌≡◌, refl, Bool, true, false, List, [], ◌∷◌, some, pos, arith,
  Returns,
}
use stmm_input_bt.KeyServers.{unknown}
use stmm_input_bt.KeyPacket.{key_press}
use stmm_input_bt.KeyClient.State.{Key}
use stmm_input_bt.PressedKeys.{KeyWindow, is_key_pressed}
use stmm_input_bt.PressedKeys.Counts.{record_call, IsBalanced}
use stmm_input_bt.Grid.State.{Grid}
use stmm_input_bt.Grid.Wellformed.{IsGrid}
use stmm_input_bt.KeyboardScreen.Cells.{
  Places, tot_weight, positions, calc_cell_positions, get_key_from_coords,
}
use stmm_input_bt.KeyboardScreen.Places.{ArePlaces, calc_cell_positions_lem}
use stmm_input_bt.KeyboardScreen.HitTest.{IsKeyAt, get_key_from_coords_lem}
use stmm_input_bt.KeyboardScreen.Events.{
  Screen, source_of_key, Event, button_pressed, button_released, key_pressed, active_changed,
  handle_all,
}
use stmm_input_bt.KeyboardScreen.Balance.{IsReady, handle_all-IsReady}
use stmm_input_bt.KeyboardScreen.Stopped.{handle_all-exit}

abbrev rounded : ℕ → ℕ → ℕ → ℕ
rounded w total pix = w * pix / total

rounded_down : (w total pix : ℕ) → rounded w total pix * total ≤ w * pix
rounded_down w zero pix = omega arith
rounded_down w (suc total) pix = omega arith

abbrev one_key : Grid
one_key = record {
  tot_columns = 1;
  tot_rows = 1;
  edit_columns_weight = pos 10 ∷ [];
  edit_rows_weight = pos 5 ∷ [];
  edit_hk = 30 ∷ [];
  edit_names = "A" ∷ [];
  keys_fullscreen = false;
  exit_button_perc_x = 50;
  exit_button_perc_y = 50;
  exit_in_cell = false;
  exit_in_cell_column = 0;
  exit_in_cell_row = 0;
  log_sent_keys = true;
  cur_server = record { bt_addr = []; l2cap_port = pos 0; name = unknown; sdp = false };
  column_weight_rows = [];
  row_weight_rows = [];
  cell_rows = [];
}

one_key-IsGrid : IsGrid one_key
one_key-IsGrid = record {
  columns = (omega arith, omega arith);
  rows = (omega arith, omega arith);
  column_weights = (refl, (omega arith, omega arith, tt));
  row_weights = (refl, (omega arith, omega arith, tt));
  fits = (omega arith, omega arith);
  same_size = refl;
  exit_position = (omega arith, omega arith);
  exit_column = omega arith;
  exit_row = omega arith;
}

abbrev places : Places
places = record { column_pos_x = 0 ∷ 103 ∷ []; row_pos_y = 0 ∷ 53 ∷ [] }

calc_cell_positions_lem_example :
    Returns (ArePlaces 103 53 one_key) (calc_cell_positions rounded 103 53 one_key)
calc_cell_positions_lem_example =
    calc_cell_positions_lem rounded rounded_down 103 53 one_key one_key-IsGrid

placed : ArePlaces 103 53 one_key places
unfolding calc_cell_positions positions tot_weight
placed = calc_cell_positions_lem rounded rounded_down 103 53 one_key one_key-IsGrid

get_key_from_coords_lem_example :
    Returns
      (IsKeyAt one_key places (pos 7) (pos 49))
      (get_key_from_coords one_key places (pos 7) (pos 49))
get_key_from_coords_lem_example =
    get_key_from_coords_lem one_key places (pos 7) (pos 49) 103 53 one_key-IsGrid placed

abbrev idle : KeyWindow (List Key)
idle = record { pressed = []; log_sent_keys = true; log = []; tot_lines = 0; client = [] }

abbrev screen : Bool → Screen (List Key)
screen running = record {
  running = running;
  fullscreen = false;
  canvas_x = pos 0;
  canvas_y = pos 0;
  exit_center_x = pos 80;
  exit_center_y = pos 40;
  places = places;
  grid = one_key;
  window = idle;
}

idle-IsBalanced : IsBalanced idle
unfolding is_key_pressed
idle-IsBalanced k = refl

abbrev connected : List Key → Bool
connected client = true

screen-IsReady : IsReady (screen true)
screen-IsReady = record {
  grid = one_key-IsGrid;
  pix_w = 103;
  pix_h = 53;
  places = placed;
  window = idle-IsBalanced;
}

abbrev events : List Event
events =
    button_pressed true (pos 7) (pos 9)
    ∷ key_pressed 38
    ∷ button_released true
    ∷ active_changed false
    ∷ []

handle_all-IsReady_example : Returns IsReady (handle_all connected record_call events (screen true))
handle_all-IsReady_example = handle_all-IsReady connected events (screen true) screen-IsReady

-- The exit button is pressed while the keyboard holds the key.
abbrev held_screen : Screen (List Key)
held_screen = record (screen true) {
  window = record idle { pressed = source_of_key 30 ∷ []; client = (key_press, 30) ∷ [] };
}

handle_all-exit_example :
    handle_all connected record_call (button_pressed true (pos 80) (pos 40) ∷ events) held_screen
    ≡ some (record held_screen { running = false })
handle_all-exit_example =
    handle_all-exit connected record_call events (pos 80) (pos 40) held_screen refl refl refl

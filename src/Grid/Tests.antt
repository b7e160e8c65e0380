-- ===== src/Grid/Tests.antt =====
-- A grid of two columns and one row, with the keys A and none.
use stmm_input_bt.Base.{
  zero, suc, subst, ◌+◌, ◌*◌, ◌<◌, ◌≡◌, refl, true, false, [], ◌∷◌, some, pos, negsuc, arith,
  Returns,
}
use stmm_input_bt.KeyServers.{unknown, is_valid_port, is_valid_addr, differs}
use stmm_input_bt.Util.SignTexts.{
  write_sign, read_sign, write_sign-some_text, write_sign-HasNoComma, read_sign-write_sign,
}
use stmm_input_bt.InputStrings.{InputStrings, get_key_string, find_key}
use stmm_input_bt.Grid.State.{CellRow, Grid}
use stmm_input_bt.Grid.Edit.{cell_row, on_spin_nr_columns_changed}
use stmm_input_bt.Grid.Config.{Config, known_key, save_state, load_state}
use stmm_input_bt.Grid.Cells.{IsCellAt}
use stmm_input_bt.Grid.Wellformed.{IsGrid, IsShown}
use stmm_input_bt.Grid.Resize.{on_spin_nr_columns_changed_lem}
use stmm_input_bt.Grid.Load.{load_state-IsGrid}
use stmm_input_bt.Grid.RoundTrip.{AreKnown, reloaded, load_state-save_state}

abbrev strings : InputStrings
strings = record {
  key_string_map = (0, "NULL") ∷ (30, "A") ∷ [];
  all_keys = [];
  initial_add = false;
}

abbrev first_cell : CellRow
first_cell = record { x = 0; y = 0; key_name = "A"; hardware_key = 30 }

abbrev second_cell : CellRow
second_cell = record { x = 1; y = 0; key_name = "NULL"; hardware_key = 0 }

abbrev pub small : Grid
small = record {
  tot_columns = 2;
  tot_rows = 1;
  edit_columns_weight = pos 10 ∷ pos 20 ∷ [];
  edit_rows_weight = pos 5 ∷ [];
  edit_hk = 30 ∷ 0 ∷ [];
  edit_names = "A" ∷ "NULL" ∷ [];
  keys_fullscreen = true;
  exit_button_perc_x = 50;
  exit_button_perc_y = 20;
  exit_in_cell = false;
  exit_in_cell_column = 1;
  exit_in_cell_row = 0;
  log_sent_keys = true;
  cur_server = record {
    bt_addr = 1 ∷ 2 ∷ 3 ∷ 4 ∷ 5 ∷ 6 ∷ [];
    l2cap_port = pos 4097;
    name = unknown;
    sdp = false;
  };
  column_weight_rows = [];
  row_weight_rows = [];
  cell_rows = first_cell ∷ second_cell ∷ [];
}

pub small-IsGrid : IsGrid small
small-IsGrid = record {
  columns = (omega arith, omega arith);
  rows = (omega arith, omega arith);
  column_weights = (refl, (omega arith, omega arith, (omega arith, omega arith, tt)));
  row_weights = (refl, (omega arith, omega arith, tt));
  fits = (omega arith, omega arith);
  same_size = refl;
  exit_position = (omega arith, omega arith);
  exit_column = omega arith;
  exit_row = omega arith;
}

pub small-IsShown : IsShown small
unfolding cell_row
small-IsShown zero cell at =
    let same : first_cell ≡ cell = ground arith in
    subst (λ c. (c.x < 0 + 2) × IsCellAt small (0 * 1 + 0) 1 c) same
      (omega arith, (omega arith, omega arith, refl))
small-IsShown (suc zero) cell at =
    let same : second_cell ≡ cell = ground arith in
    subst (λ c. (c.x < 0 + 2) × IsCellAt small (0 * 1 + 1) 1 c) same
      (omega arith, (omega arith, omega arith, refl))
small-IsShown (suc (suc i)) cell at = absurd (ground arith)

-- Settings that say nothing useful.
abbrev empty : Config
empty = record {
  tot_columns = pos 70;
  tot_rows = negsuc 3;
  column_weights = 7 ∷ 7 ∷ [];
  row_weights = [];
  cell_keys = [];
  fullscreen = false;
  exit_button_perc_x = pos 101;
  exit_button_perc_y = negsuc 0;
  exit_in_cell = true;
  exit_button_in_cell_column = pos 9;
  exit_button_in_cell_row = pos 9;
  log_sent_keys = false;
  selected_server_addr = [];
  selected_server_port = pos 0;
}

load_state-IsGrid_example :
    Returns IsGrid (load_state write_sign read_sign (λ a. a) (λ t. some t) strings empty small)
load_state-IsGrid_example =
    load_state-IsGrid write_sign read_sign (λ a. a) (λ t. some t) strings empty small

small-AreKnown : AreKnown strings small.edit_hk
unfolding known_key get_key_string find_key
small-AreKnown = (omega arith, refl, (omega arith, refl, tt))

load_state-save_state_example :
    load_state write_sign read_sign
      (λ a. a)
      (λ t. some t)
      strings
      (save_state write_sign read_sign (λ a. a) (λ t. some t) small empty)
      small
    ≡ some (reloaded strings small small)
unfolding is_valid_port is_valid_addr differs
load_state-save_state_example =
    load_state-save_state write_sign read_sign (λ a. a) (λ t. some t) write_sign-some_text
      write_sign-HasNoComma read_sign-write_sign (λ a. refl) strings empty small small small-IsGrid
      small-AreKnown refl refl

on_spin_nr_columns_changed_lem_example :
    Returns
      (λ g'. IsGrid g' × IsShown g' × (g'.tot_columns ≡ 1) × (g'.tot_rows ≡ 1))
      (on_spin_nr_columns_changed 1 small)
on_spin_nr_columns_changed_lem_example =
    on_spin_nr_columns_changed_lem 1 small small-IsGrid (omega arith) (omega arith)

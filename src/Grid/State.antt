-- ===== src/Grid/State.antt =====
-- The members of `BtkbWindow` that are stored in the configuration, and the rows of its three lists.
use Prim.Native.String.{String}
use stmm_input_bt.Base.{ℕ, Bool, List, ℤ, pos}
use stmm_input_bt.KeyServers.{ServerInfo}

abbrev pub edit_default_weight : ℤ
edit_default_weight = pos 10

abbrev pub edit_min_weight : ℤ
edit_min_weight = pos 1

abbrev pub edit_max_weight : ℤ
edit_max_weight = pos 1000

abbrev pub edit_max_grid_w : ℕ
edit_max_grid_w = 5

abbrev pub edit_max_grid_h : ℕ
edit_max_grid_h = 5

abbrev pub hk_null : ℕ
hk_null = 0

-- A row of a list of weights.
pub record WeightRow : Type 0 where
  pub idx : ℕ
  pub weight : ℤ

-- A row of the list of cells.
pub record CellRow : Type 0 where
  pub x : ℕ
  pub y : ℕ
  pub key_name : String
  pub hardware_key : ℕ

pub record Grid : Type 0 where
  pub tot_columns : ℕ
  pub tot_rows : ℕ
  pub edit_columns_weight : List ℤ
  pub edit_rows_weight : List ℤ
  pub edit_hk : List ℕ
  pub edit_names : List String
  pub keys_fullscreen : Bool
  pub exit_button_perc_x : ℕ
  pub exit_button_perc_y : ℕ
  pub exit_in_cell : Bool
  pub exit_in_cell_column : ℕ
  pub exit_in_cell_row : ℕ
  pub log_sent_keys : Bool
  pub cur_server : ServerInfo
  pub column_weight_rows : List WeightRow
  pub row_weight_rows : List WeightRow
  pub cell_rows : List CellRow

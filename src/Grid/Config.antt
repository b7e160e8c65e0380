-- ===== src/Grid/Config.antt =====
-- btkbwindow.cc: `saveStateToConfig` and `loadStateFromConfig`. The texts of numbers are those of Util,
-- and `str2ba` and `ba2str` of the bluetooth headers are parameters; `str2ba` is `none` if it fails.
use text.Mathlib.Text.{◌==◌ as str_eq}
use stmm_input_bt.Base.{
  ℕ, suc, ◌-◌, ◌*◌, Bool, not, List, [], ◌∷◌, Option, some, ℤ, pos, negsuc, pos_part, leb_ℤ, resize,
  map, if◌then◌else◌, ◌>>=◌,
}
use stmm_input_bt.BdAddr.{BdAddr}
use stmm_input_bt.KeyServers.{ServerInfo, is_valid_port, is_valid_string_addr}
use stmm_input_bt.Util.{vector_to_string, string_to_vector}
use stmm_input_bt.InputStrings.{InputStrings, get_key_string}
use stmm_input_bt.Grid.State.{
  Grid, edit_default_weight, edit_min_weight, edit_max_weight, edit_max_grid_w, edit_max_grid_h,
  hk_null,
}
use stmm_input_bt.Grid.Edit.{write_at}

-- The settings, by the keys of the configuration.
pub record Config : Type 0 where
  pub tot_columns : ℤ
  pub tot_rows : ℤ
  pub column_weights : List ℕ
  pub row_weights : List ℕ
  pub cell_keys : List ℕ
  pub fullscreen : Bool
  pub exit_button_perc_x : ℤ
  pub exit_button_perc_y : ℤ
  pub exit_in_cell : Bool
  pub exit_button_in_cell_column : ℤ
  pub exit_button_in_cell_row : ℤ
  pub log_sent_keys : Bool
  pub selected_server_addr : List ℕ
  pub selected_server_port : ℤ

abbrev pub max_int32 : ℤ
max_int32 = pos 2147483647

-- A value within bounds, or else the bound.
unfoldable pub within : ℕ → ℕ → ℤ → ℕ
within low high n =
    if not (leb_ℤ (pos low) n) then low else if not (leb_ℤ n (pos high)) then high else pos_part n

-- An index of a column or a row, or else the nearest.
unfoldable pub index_within : ℕ → ℤ → ℕ
index_within total n =
    if not (leb_ℤ (pos 0) n) then 0 else if leb_ℤ (pos total) n then total - 1 else pos_part n

module _ (strings : InputStrings) where
  -- A cell's key of the configuration.
  unfoldable pub known_key : ℕ → ℕ
  known_key code = if str_eq (get_key_string strings code) "" then hk_null else code

  -- The loop over the keys of the cells, from the index on.
  unfoldable pub load_keys : ℕ → List ℤ → List ℕ → Option (List ℕ)
  unfolding known_key write_at
  load_keys i [] keys = some keys
  load_keys i (negsuc n ∷ codes) keys = load_keys (suc i) codes keys
  load_keys i (pos code ∷ codes) keys = do
    keys' ← write_at keys i (known_key code)
    load_keys (suc i) codes keys'

module _ (str2ba : List ℕ → Option BdAddr) where
  -- The server of the configuration.
  unfoldable pub load_server : Config → ServerInfo → Option ServerInfo
  unfolding is_valid_string_addr
  load_server c server =
      if is_valid_string_addr str2ba c.selected_server_addr
      then (do
        addr ← str2ba c.selected_server_addr
        let server' = record server { bt_addr = addr }
        some (
            if is_valid_port c.selected_server_port
            then record server' { l2cap_port = c.selected_server_port }
            else server'))
      else some server

module _ (to_string : ℤ → List ℕ) (read_number : List ℕ → Option ℤ) (ba2str : BdAddr → List ℕ)
    (str2ba : List ℕ → Option BdAddr) where
  -- `saveStateToConfig` up to the server.
  abbrev pub save_grid : Grid → Config → Config
  save_grid g c = record c {
    tot_columns = pos g.tot_columns;
    tot_rows = pos g.tot_rows;
    column_weights = vector_to_string to_string read_number g.edit_columns_weight;
    row_weights = vector_to_string to_string read_number g.edit_rows_weight;
    cell_keys = vector_to_string to_string read_number (map pos g.edit_hk);
    fullscreen = g.keys_fullscreen;
    exit_button_perc_x = pos g.exit_button_perc_x;
    exit_button_perc_y = pos g.exit_button_perc_y;
    exit_in_cell = g.exit_in_cell;
    exit_button_in_cell_column = pos g.exit_in_cell_column;
    exit_button_in_cell_row = pos g.exit_in_cell_row;
    log_sent_keys = g.log_sent_keys;
  }

  -- The server as it is written.
  abbrev pub save_server : ServerInfo → Config → Config
  save_server server c = record c {
    selected_server_addr = ba2str server.bt_addr;
    selected_server_port = server.l2cap_port;
  }

  -- `saveStateToConfig`, with the configuration before. The size of the window is not part of it.
  unfoldable pub save_state : Grid → Config → Config
  save_state g c =
      let c' = save_grid g c in
      if is_valid_port g.cur_server.l2cap_port then save_server g.cur_server c' else c'

  -- `loadStateFromConfig`; the vectors of weights are empty before.
  unfoldable pub load_state : InputStrings → Config → Grid → Option Grid
  unfolding within index_within load_keys load_server
  load_state strings c g = do
    let columns = within 1 edit_max_grid_w c.tot_columns
    let rows = within 1 edit_max_grid_h c.tot_rows
    column_weights ←
        string_to_vector to_string read_number c.column_weights columns columns edit_min_weight
          edit_max_weight edit_default_weight
    row_weights ←
        string_to_vector to_string read_number c.row_weights rows rows edit_min_weight
          edit_max_weight edit_default_weight
    codes ←
        string_to_vector to_string read_number c.cell_keys (columns * rows) (columns * rows)
          (negsuc 0) max_int32 (negsuc 0)
    keys ← load_keys strings 0 codes (resize (columns * rows) hk_null g.edit_hk)
    server ← load_server str2ba c g.cur_server
    some (record g {
      tot_columns = columns;
      tot_rows = rows;
      edit_columns_weight = column_weights;
      edit_rows_weight = row_weights;
      edit_hk = keys;
      edit_names = map (get_key_string strings) keys;
      keys_fullscreen = c.fullscreen;
      exit_button_perc_x = within 0 100 c.exit_button_perc_x;
      exit_button_perc_y = within 0 100 c.exit_button_perc_y;
      exit_in_cell = c.exit_in_cell;
      exit_in_cell_column = index_within columns c.exit_button_in_cell_column;
      exit_in_cell_row = index_within rows c.exit_button_in_cell_row;
      log_sent_keys = c.log_sent_keys;
      cur_server = server;
    })

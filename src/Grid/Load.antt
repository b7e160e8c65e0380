-- ===== src/Grid/Load.antt =====
-- btkbwindow.cc, `loadStateFromConfig`: whatever the configuration says, the grid is well-formed.
use stmm_input_bt.Base.{
  ℕ, suc, ◌+◌, ◌*◌, ◌≤◌, ◌<◌, ◌≡◌, refl, ◌∙◌, true, List, [], ◌∷◌, Option, none, some, ℤ, pos,
  negsuc, set, length, length-set, length-map, length-resize, resize, ltb, is_some, arith,
  Option-cases, inl, inr, Returns, Returns->>=, Returns-weaken,
}
use stmm_input_bt.BdAddr.{BdAddr}
use stmm_input_bt.KeyServers.{ServerInfo, is_valid_string_addr}
use stmm_input_bt.Util.{string_to_vector}
use stmm_input_bt.Util.Bounds.{AllIn, string_to_vector_lem}
use stmm_input_bt.InputStrings.{InputStrings, get_key_string}
use stmm_input_bt.Grid.State.{
  Grid, edit_default_weight, edit_min_weight, edit_max_weight, edit_max_grid_w, edit_max_grid_h,
  hk_null,
}
use stmm_input_bt.Grid.Edit.{write_at}
use stmm_input_bt.Grid.Config.{
  Config, max_int32, within, index_within, known_key, load_keys, load_server, load_state,
}
use stmm_input_bt.Grid.Cells.{cell_idx_bound}
use stmm_input_bt.Grid.Wellformed.{AreWeights, IsGrid}

within_bounds :
    (low high : ℕ) (n : ℤ) → low ≤ high → (low ≤ within low high n) × (within low high n ≤ high)
unfolding within
within_bounds low high (pos n) h = ground arith
within_bounds low high (negsuc n) h = ground arith

index_within_bound : (total : ℕ) (n : ℤ) → 1 ≤ total → index_within total n < total
unfolding index_within
index_within_bound total (pos n) h = ground arith
index_within_bound total (negsuc n) h = ground arith

load_keys_lem :
    (strings : InputStrings) (i : ℕ) (codes : List ℤ) (keys : List ℕ)
    → i + length codes ≤ length keys
    → Returns (λ keys'. length keys' ≡ length keys) (load_keys strings i codes keys)
unfolding load_keys write_at
load_keys_lem strings i [] keys h = refl
load_keys_lem strings i (negsuc n ∷ codes) keys h =
    load_keys_lem strings (suc i) codes keys (omega (arith, h))
load_keys_lem strings i (pos n ∷ codes) keys h =
    let inside : ltb i (length keys) ≡ true = ground (arith, h) in
    let size = length-set keys i (known_key strings n) in
    rw inside (
      Returns-weaken (λ keys'. length keys' ≡ length (set keys i (known_key strings n)))
        (λ keys'. length keys' ≡ length keys)
        (load_keys strings (suc i) codes (set keys i (known_key strings n)))
        (load_keys_lem strings (suc i) codes (set keys i (known_key strings n))
          (omega (arith, h, size)))
        (λ keys' e. e ∙ size))

load_server_total :
    (str2ba : List ℕ → Option BdAddr) (c : Config) (server : ServerInfo)
    → is_some (load_server str2ba c server) ≡ true
unfolding load_server is_valid_string_addr
load_server_total str2ba c server = elim (Option-cases (str2ba c.selected_server_addr)) [
  | inl nothing ↦ ground (arith, nothing)
  | inr (addr, there) ↦ ground (arith, there)
]

there_is : (o : Option ServerInfo) → is_some o ≡ true → Returns (λ server. Unit {0}) o
there_is none h = absurd (ground arith)
there_is (some server) h = tt

-- A vector of weights of the configuration.
module _ (to_string : ℤ → List ℕ) (read_number : List ℕ → Option ℤ) where
  load_weights :
      (text : List ℕ) (total : ℕ)
      → 1 ≤ total
      → Returns (AreWeights total) (
          string_to_vector to_string read_number text total total edit_min_weight edit_max_weight
            edit_default_weight)
  load_weights text total h =
      Returns-weaken
        (λ arr.
          AllIn edit_min_weight edit_max_weight arr × (total ≤ length arr) × (length arr ≤ total))
        (AreWeights total)
        (string_to_vector to_string read_number text total total edit_min_weight edit_max_weight
          edit_default_weight)
        (string_to_vector_lem to_string read_number text total total edit_min_weight edit_max_weight
          edit_default_weight (omega arith) h (omega arith) (omega arith))
        (λ arr k. (omega (arith, k.1, k.2), k.0))

-- `loadStateFromConfig`, whatever the configuration is and `istringstream` and `str2ba` do: it
-- returns, and the grid is well-formed.
pub load_state-IsGrid :
    (to_string : ℤ → List ℕ) (read_number : List ℕ → Option ℤ) (ba2str : BdAddr → List ℕ)
    (str2ba : List ℕ → Option BdAddr) (strings : InputStrings) (c : Config) (g : Grid)
    → Returns IsGrid (load_state to_string read_number ba2str str2ba strings c g)
unfolding load_state
load_state-IsGrid to_string read_number ba2str str2ba strings c g =
    let columns = within 1 edit_max_grid_w c.tot_columns in
    let rows = within 1 edit_max_grid_h c.tot_rows in
    let of_columns = within_bounds 1 edit_max_grid_w c.tot_columns (omega arith) in
    let of_rows = within_bounds 1 edit_max_grid_h c.tot_rows (omega arith) in
    let some_cell : 1 ≤ columns * rows =
      omega (arith, cell_idx_bound columns rows 0 0 of_columns.0 of_rows.0) in
    let current = resize (columns * rows) hk_null g.edit_hk in
    let size = length-resize (columns * rows) hk_null g.edit_hk in
    Returns->>= (AreWeights columns) IsGrid
      (string_to_vector to_string read_number c.column_weights columns columns edit_min_weight
        edit_max_weight edit_default_weight)
      _ (load_weights to_string read_number c.column_weights columns of_columns.0)
      (λ column_weights are_columns.
        Returns->>= (AreWeights rows) IsGrid
          (string_to_vector to_string read_number c.row_weights rows rows edit_min_weight
            edit_max_weight edit_default_weight)
          _ (load_weights to_string read_number c.row_weights rows of_rows.0)
          (λ row_weights are_rows.
            Returns->>=
              (λ codes.
                AllIn (negsuc 0) max_int32 codes
                × (columns * rows ≤ length codes)
                × (length codes ≤ columns * rows))
              IsGrid
              (string_to_vector to_string read_number c.cell_keys (columns * rows) (columns * rows)
                (negsuc 0) max_int32 (negsuc 0))
              _
              (string_to_vector_lem to_string read_number c.cell_keys (columns * rows)
                (columns * rows) (negsuc 0) max_int32 (negsuc 0) (omega arith) some_cell
                (omega arith) (omega arith))
              (λ codes of_codes.
                Returns->>= (λ keys. length keys ≡ length current) IsGrid
                  (load_keys strings 0 codes current) _
                  (load_keys_lem strings 0 codes current (omega (arith, of_codes.2, size)))
                  (λ keys same.
                    let names = length-map (get_key_string strings) keys in
                    Returns->>= (λ server. Unit {0}) IsGrid (load_server str2ba c g.cur_server) _
                      (there_is (load_server str2ba c g.cur_server)
                        (load_server_total str2ba c g.cur_server))
                      (λ server any. record {
                        columns = of_columns;
                        rows = of_rows;
                        column_weights = are_columns;
                        row_weights = are_rows;
                        fits = (omega (arith, names, same, size), omega (arith, same, size));
                        same_size = names;
                        exit_position = (
                          (within_bounds 0 100 c.exit_button_perc_x (omega arith)).1,
                          (within_bounds 0 100 c.exit_button_perc_y (omega arith)).1,
                        );
                        exit_column =
                            index_within_bound columns c.exit_button_in_cell_column of_columns.0;
                        exit_row = index_within_bound rows c.exit_button_in_cell_row of_rows.0;
                      })))))

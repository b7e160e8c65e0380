-- ===== src/Grid/Edit.antt =====
-- btkbwindow.cc: the edit operations. An access out of range and a failed assertion are `none`.
use stmm_input_bt.Base.{
  ℕ, zero, suc, ◌+◌, ◌-◌, ◌*◌, Bool, true, false, List, [], ◌∷◌, ◌++◌, Option, none, some, ℤ,
  length, get_elem?, set, resize, ltb, leb, leb_ℤ, ◌&&◌, ◌==◌, if◌then◌else◌, ◌>>=◌, ◌>>◌, assert,
}
use stmm_input_bt.InputStrings.{InputStrings, get_key_string}
use stmm_input_bt.Grid.State.{Grid, CellRow, WeightRow, edit_default_weight, hk_null}

-- The index of a cell.
abbrev pub cell_idx : ℕ → ℕ → ℕ → ℕ
cell_idx columns column row = column + row * columns

-- A write through an index.
unfoldable pub write_at {ℓ} : {A : Type ℓ} → List A → ℕ → A → Option (List A)
write_at xs i x = do assert (ltb i (length xs)); some (set xs i x)

-- The row of a list at a path, with another weight.
unfoldable pub write_weight : List WeightRow → ℕ → ℤ → Option (List WeightRow)
write_weight rows path weight = do
  row ← get_elem? rows path
  some (set rows path (record row { weight = weight }))

-- `setWeight`
unfoldable pub set_weight : ℤ → Bool → ℕ → ℕ → Grid → Option Grid
unfolding write_at write_weight
set_weight weight true column path g = do
  weights ← write_at g.edit_columns_weight column weight
  rows ← write_weight g.column_weight_rows path weight
  some (record g { edit_columns_weight = weights; column_weight_rows = rows })
set_weight weight false row path g = do
  weights ← write_at g.edit_rows_weight row weight
  rows ← write_weight g.row_weight_rows path weight
  some (record g { edit_rows_weight = weights; row_weight_rows = rows })

-- `setKey`
unfoldable pub set_key : InputStrings → ℕ → ℕ → ℕ → ℕ → Grid → Option Grid
unfolding write_at
set_key strings key column row path g = do
  let idx = cell_idx (length g.edit_columns_weight) column row
  let name = get_key_string strings key
  keys ← write_at g.edit_hk idx key
  names ← write_at g.edit_names idx name
  cell ← get_elem? g.cell_rows path
  some (record g {
    edit_hk = keys;
    edit_names = names;
    cell_rows = set g.cell_rows path (record cell { key_name = name; hardware_key = key });
  })

-- The loop that appends default weights, `n` times.
unfoldable pub push_weights : ℕ → List ℤ → List ℤ
push_weights zero weights = weights
push_weights (suc n) weights = push_weights n (weights ++ (edit_default_weight ∷ []))

-- `pop_back`
unfoldable pub pop_back : List ℤ → Option (List ℤ)
pop_back [] = none
pop_back (w ∷ []) = some []
pop_back (w ∷ v ∷ weights) = do rest ← pop_back (v ∷ weights); some (w ∷ rest)

-- The loop that removes weights, `n` times.
unfoldable pub pop_weights : ℕ → List ℤ → Option (List ℤ)
unfolding pop_back
pop_weights zero weights = some weights
pop_weights (suc n) weights = do shorter ← pop_back weights; pop_weights n shorter

-- `recreateWeightsList`, of one of the two lists, from the index on.
unfoldable pub weight_rows_from : ℕ → List ℤ → List WeightRow
weight_rows_from i [] = []
weight_rows_from i (w ∷ weights) = record { idx = i; weight = w } ∷ weight_rows_from (suc i) weights

abbrev pub recreate_weights_list : Grid → Grid
recreate_weights_list g = record g {
  column_weight_rows = weight_rows_from 0 g.edit_columns_weight;
  row_weight_rows = weight_rows_from 0 g.edit_rows_weight;
}

-- A row of `recreateCellsKeyList`.
unfoldable pub cell_row : Grid → ℕ → ℕ → Option CellRow
cell_row g column row = do
  name ← get_elem? g.edit_names (cell_idx g.tot_columns column row)
  key ← get_elem? g.edit_hk (cell_idx g.tot_columns column row)
  some (record { x = column; y = row; key_name = name; hardware_key = key })

-- Its inner loop, over `n` rows from this one on.
unfoldable pub cells_of_column : ℕ → Grid → ℕ → ℕ → Option (List CellRow)
unfolding cell_row
cells_of_column zero g column row = some []
cells_of_column (suc n) g column row = do
  cell ← cell_row g column row
  cells ← cells_of_column n g column (suc row)
  some (cell ∷ cells)

-- Its outer loop, over `n` columns from this one on.
unfoldable pub cells_of_columns : ℕ → Grid → ℕ → Option (List CellRow)
unfolding cells_of_column
cells_of_columns zero g column = some []
cells_of_columns (suc n) g column = do
  cells ← cells_of_column g.tot_rows g column 0
  more ← cells_of_columns n g (suc column)
  some (cells ++ more)

-- Its `resize` of names and keys, by the size of the names.
abbrev pub resize_cells : Grid → Grid
resize_cells g =
    let total = g.tot_columns * g.tot_rows in
    let is_short = ltb (length g.edit_names) total in
    record g {
      edit_names = if is_short then resize total "" g.edit_names else g.edit_names;
      edit_hk = if is_short then resize total hk_null g.edit_hk else g.edit_hk;
    }

-- `recreateCellsKeyList`
unfoldable pub recreate_cells_key_list : Grid → Option Grid
unfolding cells_of_columns
recreate_cells_key_list g = do
  let g' = resize_cells g
  cells ← cells_of_columns g'.tot_columns g' 0
  some (record g' { cell_rows = cells })

-- `onSpinNrColumnsChanged`, with the value of the spin button.
unfoldable pub on_spin_nr_columns_changed : ℕ → Grid → Option Grid
unfolding push_weights pop_weights recreate_cells_key_list weight_rows_from
on_spin_nr_columns_changed new g = do
  let longer = push_weights (new - g.tot_columns) g.edit_columns_weight
  weights ← pop_weights (g.tot_columns - new) longer
  g' ←
      recreate_cells_key_list
        (recreate_weights_list (record g { tot_columns = new; edit_columns_weight = weights }))
  some (
      if leb g'.tot_columns g'.exit_in_cell_column
      then record g' { exit_in_cell_column = g'.tot_columns - 1 }
      else g')

-- `onSpinNrRowsChanged`
unfoldable pub on_spin_nr_rows_changed : ℕ → Grid → Option Grid
unfolding push_weights pop_weights recreate_cells_key_list weight_rows_from
on_spin_nr_rows_changed new g = do
  let longer = push_weights (new - g.tot_rows) g.edit_rows_weight
  weights ← pop_weights (g.tot_rows - new) longer
  g' ←
      recreate_cells_key_list
        (recreate_weights_list (record g { tot_rows = new; edit_rows_weight = weights }))
  some (
      if leb g'.tot_rows g'.exit_in_cell_row
      then record g' { exit_in_cell_row = g'.tot_rows - 1 }
      else g')

-- `onCellNameActivated`: its assertions, and what `KeyScreen` is given.
unfoldable pub on_cell_name_activated : ℕ → Grid → Option (ℕ × ℕ × ℕ)
on_cell_name_activated path g = do
  cell ← get_elem? g.cell_rows path
  assert (ltb cell.x (length g.edit_columns_weight))
  assert (ltb cell.y (length g.edit_rows_weight))
  key ← get_elem? g.edit_hk (cell_idx (length g.edit_columns_weight) cell.x cell.y)
  assert (key == cell.hardware_key)
  some (cell.hardware_key, cell.x, cell.y)

-- `onColumnWeightActivated` and `onRowWeightActivated`: the assertions, and what `WeightScreen` is given.
unfoldable pub on_weight_activated : ℕ → List WeightRow → List ℤ → Option (ℤ × ℕ)
on_weight_activated path rows weights = do
  row ← get_elem? rows path
  assert (ltb row.idx (length weights))
  weight ← get_elem? weights row.idx
  assert (leb_ℤ weight row.weight && leb_ℤ row.weight weight)
  some (row.weight, row.idx)

-- The handlers of the check buttons and of the other spin buttons.
abbrev pub on_keys_fullscreen_changed : Bool → Grid → Grid
on_keys_fullscreen_changed active g = record g { keys_fullscreen = active }

abbrev pub on_spin_exit_position_x_changed : ℕ → Grid → Grid
on_spin_exit_position_x_changed value g = record g { exit_button_perc_x = value }

abbrev pub on_spin_exit_position_y_changed : ℕ → Grid → Grid
on_spin_exit_position_y_changed value g = record g { exit_button_perc_y = value }

abbrev pub on_keys_exit_in_cell_changed : Bool → Grid → Grid
on_keys_exit_in_cell_changed active g = record g { exit_in_cell = active }

abbrev pub on_spin_exit_in_cell_column_changed : ℕ → Grid → Grid
on_spin_exit_in_cell_column_changed value g = record g { exit_in_cell_column = value }

abbrev pub on_spin_exit_in_cell_row_changed : ℕ → Grid → Grid
on_spin_exit_in_cell_row_changed value g = record g { exit_in_cell_row = value }

abbrev pub on_keys_log_sent_keys_changed : Bool → Grid → Grid
on_keys_log_sent_keys_changed active g = record g { log_sent_keys = active }

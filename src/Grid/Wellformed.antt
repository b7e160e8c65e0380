-- ===== src/Grid/Wellformed.antt =====
-- btkbwindow.cc: a well-formed grid, and its parts as they are made anew.
use Prim.Native.String.{String}
use stmm_input_bt.Base.{
  ℕ, zero, suc, ◌+◌, ◌-◌, ◌*◌, ◌≤◌, ◌<◌, ◌≡◌, refl, List, [], ◌∷◌, ◌++◌, some, ℤ, length,
  length-append, length-resize, ltb, arith, Bool-cases, inl, inr, Returns, Returns->>=,
}
use stmm_input_bt.Util.Bounds.{AllIn, AllIn-append}
use stmm_input_bt.Grid.State.{
  Grid, CellRow, edit_default_weight, edit_min_weight, edit_max_weight, edit_max_grid_w,
  edit_max_grid_h, hk_null,
}
use stmm_input_bt.Grid.Edit.{
  push_weights, pop_back, pop_weights, cell_row, resize_cells, recreate_cells_key_list,
  cells_of_columns,
}
use stmm_input_bt.Grid.Cells.{Fits, InColumns, cells_of_columns_total}

-- A vector of weights, one for each column or row.
abbrev pub AreWeights : ℕ → List ℤ → Type 0
AreWeights total weights = (length weights ≡ total) × AllIn edit_min_weight edit_max_weight weights

pub record IsGrid (g : Grid) : Type 0 where
  pub columns : (1 ≤ g.tot_columns) × (g.tot_columns ≤ edit_max_grid_w)
  pub rows : (1 ≤ g.tot_rows) × (g.tot_rows ≤ edit_max_grid_h)
  pub column_weights : AreWeights g.tot_columns g.edit_columns_weight
  pub row_weights : AreWeights g.tot_rows g.edit_rows_weight
  pub fits : Fits g
  pub same_size : length g.edit_names ≡ length g.edit_hk
  pub exit_position : (g.exit_button_perc_x ≤ 100) × (g.exit_button_perc_y ≤ 100)
  pub exit_column : g.exit_in_cell_column < g.tot_columns
  pub exit_row : g.exit_in_cell_row < g.tot_rows

-- The list of cells has the names and keys of the grid, column by column.
abbrev pub IsShown : Grid → Type 0
IsShown g = InColumns g 0 g.tot_columns g.cell_rows

push_weights_lem :
    (n total : ℕ) (weights : List ℤ)
    → AreWeights total weights
    → AreWeights (total + n) (push_weights n weights)
unfolding push_weights
push_weights_lem zero total weights h = (omega (arith, h.0), h.1)
push_weights_lem (suc n) total weights h =
    let longer : AreWeights (total + 1) (weights ++ (edit_default_weight ∷ [])) = (
      omega (arith, h.0, length-append weights (edit_default_weight ∷ [])),
      AllIn-append edit_min_weight edit_max_weight edit_default_weight weights h.1 (omega arith)
          (omega arith),
    ) in
    let all = push_weights_lem n (total + 1) (weights ++ (edit_default_weight ∷ [])) longer in
    (omega (arith, all.0), all.1)

pop_back_lem :
    (total : ℕ) (weights : List ℤ)
    → AreWeights (suc total) weights
    → Returns (AreWeights total) (pop_back weights)
unfolding pop_back
pop_back_lem total [] h = absurd (omega (arith, h.0))
pop_back_lem total (w ∷ []) h = (omega (arith, h.0), tt)
pop_back_lem zero (w ∷ v ∷ weights) h = absurd (omega (arith, h.0))
pop_back_lem (suc total) (w ∷ v ∷ weights) h =
    Returns->>= (AreWeights total) (AreWeights (suc total)) (pop_back (v ∷ weights))
      (λ rest. some (w ∷ rest)) (pop_back_lem total (v ∷ weights) (omega (arith, h.0), h.1.2))
      (λ rest k. (omega (arith, k.0), (h.1.0, h.1.1, k.1)))

pop_weights_lem :
    (n total : ℕ) (weights : List ℤ)
    → AreWeights (total + n) weights
    → Returns (AreWeights total) (pop_weights n weights)
unfolding pop_weights
pop_weights_lem zero total weights h = (omega (arith, h.0), h.1)
pop_weights_lem (suc n) total weights h =
    Returns->>= (AreWeights (total + n)) (AreWeights total) (pop_back weights) (pop_weights n)
      (pop_back_lem (total + n) weights (omega (arith, h.0), h.1)) (pop_weights_lem n total)

-- The two loops give a vector of the new size.
pub resize_weights :
    (total new : ℕ) (weights : List ℤ)
    → AreWeights total weights
    → Returns (AreWeights new) (pop_weights (total - new) (push_weights (new - total) weights))
resize_weights total new weights h =
    let longer = push_weights_lem (new - total) total weights h in
    pop_weights_lem (total - new) new (push_weights (new - total) weights)
      (omega (arith, longer.0), longer.1)

-- The rows do not depend on the list that they are in.
shown_in_place :
    (g : Grid) (cells : List CellRow)
    → InColumns g 0 g.tot_columns cells
    → InColumns (record g { cell_rows = cells }) 0 g.tot_columns cells
unfolding cell_row
shown_in_place g cells h = h

-- What `recreateCellsKeyList` makes of a grid.
abbrev pub Recreated : Grid → Grid → Type 0
Recreated g g' =
    (names : List String) × (keys : List ℕ) × (cells : List CellRow) × (g'
      ≡ record g { edit_names = names; edit_hk = keys; cell_rows = cells })
    × (length names ≡ length keys)
    × Fits g'
    × IsShown g'

pub recreate_cells_key_list_lem :
    (g : Grid)
    → length g.edit_names ≡ length g.edit_hk
    → Returns (Recreated g) (recreate_cells_key_list g)
unfolding recreate_cells_key_list
recreate_cells_key_list_lem g same =
    let total = g.tot_columns * g.tot_rows in
    let resized = resize_cells g in
    let sizes : (length resized.edit_names ≡ length resized.edit_hk)
        × (total ≤ length resized.edit_names) =
      elim (Bool-cases (ltb (length g.edit_names) total)) [
        | inl short ↦
            ground
              (arith, length-resize total "" g.edit_names, length-resize total hk_null g.edit_hk)
        | inr long ↦ ground arith
      ] in
    let fits : Fits resized = (sizes.1, omega (arith, sizes.0, sizes.1)) in
    Returns->>= (InColumns resized 0 g.tot_columns) (Recreated g)
      (cells_of_columns g.tot_columns resized 0)
      (λ cells. some (record resized { cell_rows = cells }))
      (cells_of_columns_total g.tot_columns resized 0 fits (omega arith))
      (λ cells shown. (
        resized.edit_names,
        resized.edit_hk,
        cells,
        refl,
        sizes.0,
        fits,
        shown_in_place resized cells shown,
      ))

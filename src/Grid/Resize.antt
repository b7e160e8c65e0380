-- ===== src/Grid/Resize.antt =====
-- btkbwindow.cc: the spin buttons of the grid's size.
use stmm_input_bt.Base.{
  ℕ, ◌-◌, ◌≤◌, ◌<◌, ◌≡◌, refl, sym, ap, subst, ◌∙◌, some, leb, if◌then◌else◌, ◌>>=◌, arith,
  Bool-cases, inl, inr, Returns, Returns->>=,
}
use stmm_input_bt.Grid.State.{Grid, edit_max_grid_w, edit_max_grid_h}
use stmm_input_bt.Grid.Edit.{
  push_weights, pop_weights, cell_row, recreate_weights_list, recreate_cells_key_list,
  on_spin_nr_columns_changed, on_spin_nr_rows_changed,
}
use stmm_input_bt.Grid.Cells.{Fits}
use stmm_input_bt.Grid.Wellformed.{
  AreWeights, IsGrid, IsShown, Recreated, recreate_cells_key_list_lem, resize_weights,
}

-- The exit button's column, where the grid is well-formed but for it.
clip_column : Grid → Grid
clip_column g =
    if leb g.tot_columns g.exit_in_cell_column
    then record g { exit_in_cell_column = g.tot_columns - 1 }
    else g

clip_column-IsGrid :
    (g : Grid)
    → IsGrid (record g { exit_in_cell_column = 0 })
    → IsShown g
    → IsGrid (clip_column g)
      × IsShown (clip_column g)
      × ((clip_column g).tot_columns ≡ g.tot_columns)
      × ((clip_column g).tot_rows ≡ g.tot_rows)
unfolding clip_column cell_row
clip_column-IsGrid g h shown = elim (Bool-cases (leb g.tot_columns g.exit_in_cell_column)) [
  | inl over ↦ rw over (
    record {
      columns = h.columns;
      rows = h.rows;
      column_weights = h.column_weights;
      row_weights = h.row_weights;
      fits = h.fits;
      same_size = h.same_size;
      exit_position = h.exit_position;
      exit_column = omega (arith, h.columns.0);
      exit_row = h.exit_row;
    },
    shown,
    refl,
    refl,
  )
  | inr inside ↦
      let bound : g.exit_in_cell_column < g.tot_columns = ground (arith, inside) in
      rw inside (
        record {
          columns = h.columns;
          rows = h.rows;
          column_weights = h.column_weights;
          row_weights = h.row_weights;
          fits = h.fits;
          same_size = h.same_size;
          exit_position = h.exit_position;
          exit_column = bound;
          exit_row = h.exit_row;
        },
        shown,
        refl,
        refl,
      )
]

-- `onSpinNrColumnsChanged` of a well-formed grid to a number within the bounds of the spin button: it
-- returns, the grid has that many columns and is well-formed, and the list of cells shows its cells.
pub on_spin_nr_columns_changed_lem :
    (new : ℕ) (g : Grid)
    → IsGrid g
    → 1 ≤ new
    → new ≤ edit_max_grid_w
    → Returns
        (λ g'. IsGrid g' × IsShown g' × (g'.tot_columns ≡ new) × (g'.tot_rows ≡ g.tot_rows))
        (on_spin_nr_columns_changed new g)
unfolding on_spin_nr_columns_changed clip_column
on_spin_nr_columns_changed_lem new g h least most =
    Returns->>= (AreWeights new)
      (λ g'. IsGrid g' × IsShown g' × (g'.tot_columns ≡ new) × (g'.tot_rows ≡ g.tot_rows))
      (pop_weights (g.tot_columns - new) (push_weights (new - g.tot_columns) g.edit_columns_weight))
      (λ weights. do
        g' ←
            recreate_cells_key_list (
              recreate_weights_list (record g { tot_columns = new; edit_columns_weight = weights }))
        some (clip_column g'))
      (resize_weights g.tot_columns new g.edit_columns_weight h.column_weights)
      (λ weights are_weights.
        let before =
          recreate_weights_list (record g { tot_columns = new; edit_columns_weight = weights }) in
        Returns->>= (Recreated before)
          (λ g'. IsGrid g' × IsShown g' × (g'.tot_columns ≡ new) × (g'.tot_rows ≡ g.tot_rows))
          (recreate_cells_key_list before) (λ g'. some (clip_column g'))
          (recreate_cells_key_list_lem before h.same_size)
          (λ g' (names, keys, cells, e, same, fits, shown).
            let after = record before { edit_names = names; edit_hk = keys; cell_rows = cells } in
            let fits' : Fits after = subst Fits e fits in
            let partly : IsGrid (record g' { exit_in_cell_column = 0 }) =
              subst (λ x. IsGrid (record x { exit_in_cell_column = 0 })) (sym e)
                (record {
                  columns = (least, most);
                  rows = h.rows;
                  column_weights = are_weights;
                  row_weights = h.row_weights;
                  fits = fits';
                  same_size = same;
                  exit_position = h.exit_position;
                  exit_column = omega (arith, least);
                  exit_row = h.exit_row;
                }) in
            let clipped = clip_column-IsGrid g' partly shown in
            (
              clipped.0,
              clipped.1,
              clipped.2 ∙ ap (λ x. x.tot_columns) e,
              clipped.3 ∙ ap (λ x. x.tot_rows) e,
            )))

-- The exit button's row, where the grid is well-formed but for it.
clip_row : Grid → Grid
clip_row g =
    if leb g.tot_rows g.exit_in_cell_row then record g { exit_in_cell_row = g.tot_rows - 1 } else g

clip_row-IsGrid :
    (g : Grid)
    → IsGrid (record g { exit_in_cell_row = 0 })
    → IsShown g
    → IsGrid (clip_row g)
      × IsShown (clip_row g)
      × ((clip_row g).tot_columns ≡ g.tot_columns)
      × ((clip_row g).tot_rows ≡ g.tot_rows)
unfolding clip_row cell_row
clip_row-IsGrid g h shown = elim (Bool-cases (leb g.tot_rows g.exit_in_cell_row)) [
  | inl over ↦ rw over (
    record {
      columns = h.columns;
      rows = h.rows;
      column_weights = h.column_weights;
      row_weights = h.row_weights;
      fits = h.fits;
      same_size = h.same_size;
      exit_position = h.exit_position;
      exit_row = omega (arith, h.rows.0);
      exit_column = h.exit_column;
    },
    shown,
    refl,
    refl,
  )
  | inr inside ↦
      let bound : g.exit_in_cell_row < g.tot_rows = ground (arith, inside) in
      rw inside (
        record {
          columns = h.columns;
          rows = h.rows;
          column_weights = h.column_weights;
          row_weights = h.row_weights;
          fits = h.fits;
          same_size = h.same_size;
          exit_position = h.exit_position;
          exit_row = bound;
          exit_column = h.exit_column;
        },
        shown,
        refl,
        refl,
      )
]

-- `onSpinNrRowsChanged` of a well-formed grid to a number within the bounds of the spin button: it
-- returns, the grid has that many rows and is well-formed, and the list of cells shows its cells.
pub on_spin_nr_rows_changed_lem :
    (new : ℕ) (g : Grid)
    → IsGrid g
    → 1 ≤ new
    → new ≤ edit_max_grid_h
    → Returns
        (λ g'. IsGrid g' × IsShown g' × (g'.tot_rows ≡ new) × (g'.tot_columns ≡ g.tot_columns))
        (on_spin_nr_rows_changed new g)
unfolding on_spin_nr_rows_changed clip_row
on_spin_nr_rows_changed_lem new g h least most =
    Returns->>= (AreWeights new)
      (λ g'. IsGrid g' × IsShown g' × (g'.tot_rows ≡ new) × (g'.tot_columns ≡ g.tot_columns))
      (pop_weights (g.tot_rows - new) (push_weights (new - g.tot_rows) g.edit_rows_weight))
      (λ weights. do
        g' ←
            recreate_cells_key_list
              (recreate_weights_list (record g { tot_rows = new; edit_rows_weight = weights }))
        some (clip_row g'))
      (resize_weights g.tot_rows new g.edit_rows_weight h.row_weights)
      (λ weights are_weights.
        let before =
          recreate_weights_list (record g { tot_rows = new; edit_rows_weight = weights }) in
        Returns->>= (Recreated before)
          (λ g'. IsGrid g' × IsShown g' × (g'.tot_rows ≡ new) × (g'.tot_columns ≡ g.tot_columns))
          (recreate_cells_key_list before) (λ g'. some (clip_row g'))
          (recreate_cells_key_list_lem before h.same_size)
          (λ g' (names, keys, cells, e, same, fits, shown).
            let after = record before { edit_names = names; edit_hk = keys; cell_rows = cells } in
            let fits' : Fits after = subst Fits e fits in
            let partly : IsGrid (record g' { exit_in_cell_row = 0 }) =
              subst (λ x. IsGrid (record x { exit_in_cell_row = 0 })) (sym e)
                (record {
                  rows = (least, most);
                  columns = h.columns;
                  row_weights = are_weights;
                  column_weights = h.column_weights;
                  fits = fits';
                  same_size = same;
                  exit_position = h.exit_position;
                  exit_row = omega (arith, least);
                  exit_column = h.exit_column;
                }) in
            let clipped = clip_row-IsGrid g' partly shown in
            (
              clipped.0,
              clipped.1,
              clipped.3 ∙ ap (λ x. x.tot_rows) e,
              clipped.2 ∙ ap (λ x. x.tot_columns) e,
            )))

-- ===== src/Grid/EditCell.antt =====
-- btkbwindow.cc: the key of a cell is changed, from the activated row to `setKey`.
use Prim.Native.String.{String}
use stmm_input_bt.Base.{
  ℕ, true, ◌+◌, ◌*◌, ◌<◌, ◌≡◌, ◌≢◌, refl, sym, ap, subst, ◌∙◌, some, length, length-set, set,
  get_elem?, get_elem?_total, get_elem?_bound, get_elem?-set_self, get_elem?-set_ne, ltb, ◌==◌,
  arith, Option-cases, inl, inr, Returns, ℕ_discrete,
}
use stmm_input_bt.InputStrings.{InputStrings, get_key_string}
use stmm_input_bt.Grid.State.{Grid, CellRow}
use stmm_input_bt.Grid.Edit.{cell_idx, cell_row, write_at, set_key, on_cell_name_activated}
use stmm_input_bt.Grid.Cells.{cell_idx_injective, IsCellAt}
use stmm_input_bt.Grid.Wellformed.{IsGrid, IsShown}

-- What a row says is what the grid has.
pub cell_row-parts :
    (g : Grid) (cell : CellRow)
    → cell_row g cell.x cell.y ≡ some cell
    → (get_elem? g.edit_names (cell_idx g.tot_columns cell.x cell.y) ≡ some cell.key_name)
      × (get_elem? g.edit_hk (cell_idx g.tot_columns cell.x cell.y) ≡ some cell.hardware_key)
unfolding cell_row
cell_row-parts g cell h =
    elim (Option-cases (get_elem? g.edit_names (cell_idx g.tot_columns cell.x cell.y))) [
      | inl nothing ↦ absurd (ground (arith, nothing))
      | inr (name, named) ↦
          elim (Option-cases (get_elem? g.edit_hk (cell_idx g.tot_columns cell.x cell.y))) [
            | inl nothing ↦ absurd (ground (arith, nothing, named))
            | inr (key, at) ↦
                let made : some cell
                    ≡ some
                        (record { x = cell.x; y = cell.y; key_name = name; hardware_key = key }) =
                  sym h ∙ (rw (named, at) refl) in
                let same : cell
                    ≡ record { x = cell.x; y = cell.y; key_name = name; hardware_key = key } =
                  ground arith in
                (
                  named ∙ ap some (sym (ap (λ c. c.key_name) same)),
                  at ∙ ap some (sym (ap (λ c. c.hardware_key) same)),
                )
          ]
    ]

cell_row-made :
    (g : Grid) (cell : CellRow)
    → get_elem? g.edit_names (cell_idx g.tot_columns cell.x cell.y) ≡ some cell.key_name
    → get_elem? g.edit_hk (cell_idx g.tot_columns cell.x cell.y) ≡ some cell.hardware_key
    → cell_row g cell.x cell.y ≡ some cell
unfolding cell_row
cell_row-made g cell named at = rw (named, at) refl

-- The grid after `setKey` of the cell at `path`.
abbrev keyed : ℕ → String → ℕ → CellRow → Grid → Grid
keyed key name path cell g =
    let idx = cell_idx g.tot_columns cell.x cell.y in
    record g {
      edit_hk = set g.edit_hk idx key;
      edit_names = set g.edit_names idx name;
      cell_rows = set g.cell_rows path (record cell { key_name = name; hardware_key = key });
    }

keyed-IsShown :
    (key : ℕ) (name : String) (path : ℕ) (cell : CellRow) (g : Grid)
    → IsShown g
    → get_elem? g.cell_rows path ≡ some cell
    → IsShown (keyed key name path cell g)
keyed-IsShown key name path cell g shown at i other there =
    let mine = shown path cell at in
    let parts = cell_row-parts g cell mine.1.2 in
    let idx = cell_idx g.tot_columns cell.x cell.y in
    let new : CellRow = record cell { key_name = name; hardware_key = key } in
    let g' = keyed key name path cell g in
    elim (ℕ_discrete path i) [
      | yes here ↦
          let found : some new ≡ some other =
            sym (get_elem?-set_self g.cell_rows path new (get_elem?_bound g.cell_rows path cell at))
            ∙ ap (get_elem? (set g.cell_rows path new)) here
            ∙ there in
          let same : new ≡ other = ground arith in
          let all : (new.x < 0 + g.tot_columns)
              × IsCellAt g' (0 * g.tot_rows + path) g.tot_rows new =
            (
              mine.0,
              (
                mine.1.0,
                mine.1.1,
                cell_row-made g' new
                    (get_elem?-set_self g.edit_names idx name
                      (get_elem?_bound g.edit_names idx cell.key_name parts.0))
                    (get_elem?-set_self g.edit_hk idx key
                      (get_elem?_bound g.edit_hk idx cell.hardware_key parts.1)),
              ),
            ) in
          subst (λ x. (x.x < 0 + g.tot_columns) × IsCellAt g' (0 * g.tot_rows + i) g.tot_rows x)
            same
            (subst
              (λ p. (new.x < 0 + g.tot_columns) × IsCellAt g' (0 * g.tot_rows + p) g.tot_rows new)
              here all)
      | no elsewhere ↦
          let before : get_elem? g.cell_rows i ≡ some other =
            sym (get_elem?-set_ne g.cell_rows path i new elsewhere) ∙ there in
          let theirs = shown i other before in
          let kept = cell_row-parts g other theirs.1.2 in
          let apart : idx ≢ cell_idx g.tot_columns other.x other.y = (λ e.
            let both =
              cell_idx_injective g.tot_columns cell.x cell.y other.x other.y (omega (arith, mine.0))
                (omega (arith, theirs.0)) e in
            let product : cell.x * g.tot_rows ≡ other.x * g.tot_rows =
              ap (λ n. n * g.tot_rows) both.0 in
            elsewhere (omega (arith, mine.1.1, theirs.1.1, product, both.1))) in
          (
            theirs.0,
            (
              theirs.1.0,
              theirs.1.1,
              cell_row-made g' other
                  (get_elem?-set_ne g.edit_names idx (cell_idx g.tot_columns other.x other.y) name
                      apart
                    ∙ kept.0)
                  (get_elem?-set_ne g.edit_hk idx (cell_idx g.tot_columns other.x other.y) key apart
                    ∙ kept.1),
            ),
          )
    ]

-- What the activated row gives to `KeyScreen`.
pub activated :
    (path : ℕ) (cell : CellRow) (g : Grid)
    → IsGrid g
    → IsShown g
    → get_elem? g.cell_rows path ≡ some cell
    → on_cell_name_activated path g ≡ some (cell.hardware_key, cell.x, cell.y)
unfolding on_cell_name_activated
activated path cell g h shown at =
    let mine = shown path cell at in
    let inside : ltb cell.x (length g.edit_columns_weight) ≡ true =
      ground (arith, h.column_weights.0, mine.0) in
    let below : ltb cell.y (length g.edit_rows_weight) ≡ true =
      ground (arith, h.row_weights.0, mine.1.0) in
    let key : get_elem? g.edit_hk (cell_idx (length g.edit_columns_weight) cell.x cell.y)
        ≡ some cell.hardware_key =
      ap (λ n. get_elem? g.edit_hk (cell_idx n cell.x cell.y)) h.column_weights.0
      ∙ (cell_row-parts g cell mine.1.2).1 in
    let same : (cell.hardware_key == cell.hardware_key) ≡ true = ground arith in
    rw (at, inside, below, key, same) refl

set_keyed :
    (strings : InputStrings) (key path : ℕ) (cell : CellRow) (g : Grid)
    → IsGrid g
    → IsShown g
    → get_elem? g.cell_rows path ≡ some cell
    → set_key strings key cell.x cell.y path g
      ≡ some (keyed key (get_key_string strings key) path cell g)
unfolding set_key write_at
set_keyed strings key path cell g h shown at =
    let idx = cell_idx g.tot_columns cell.x cell.y in
    let parts = cell_row-parts g cell (shown path cell at).1.2 in
    let in_keys : ltb idx (length g.edit_hk) ≡ true =
      ground (arith, get_elem?_bound g.edit_hk idx cell.hardware_key parts.1) in
    let in_names : ltb idx (length g.edit_names) ≡ true =
      ground (arith, get_elem?_bound g.edit_names idx cell.key_name parts.0) in
    rw (h.column_weights.0, in_keys, in_names, at) refl

keyed-IsGrid :
    (key : ℕ) (name : String) (path : ℕ) (cell : CellRow) (g : Grid)
    → IsGrid g
    → IsGrid (keyed key name path cell g)
keyed-IsGrid key name path cell g h =
    let idx = cell_idx g.tot_columns cell.x cell.y in
    let keys = length-set g.edit_hk idx key in
    let names = length-set g.edit_names idx name in
    record {
      columns = h.columns;
      rows = h.rows;
      column_weights = h.column_weights;
      row_weights = h.row_weights;
      fits = (omega (arith, names, h.fits.0), omega (arith, keys, h.fits.1));
      same_size = names ∙ h.same_size ∙ sym keys;
      exit_position = h.exit_position;
      exit_column = h.exit_column;
      exit_row = h.exit_row;
    }

-- The user activates a row of the list of cells of a well-formed grid that the list shows, and chooses a
-- key for `setKey`: no assertion fails, the grid is well-formed, the list shows it, and the cell of
-- that row has the key.
pub set_key_lem :
    (strings : InputStrings) (key path : ℕ) (g : Grid)
    → IsGrid g
    → IsShown g
    → path < length g.cell_rows
    → Returns
        (λ (old, column, row).
          Returns
            (λ g'.
              IsGrid g'
              × IsShown g'
              × (get_elem? g'.edit_hk (cell_idx g.tot_columns column row) ≡ some key))
            (set_key strings key column row path g))
        (on_cell_name_activated path g)
set_key_lem strings key path g h shown inside =
    let (cell, at) = get_elem?_total g.cell_rows path inside in
    let name = get_key_string strings key in
    let idx = cell_idx g.tot_columns cell.x cell.y in
    let parts = cell_row-parts g cell (shown path cell at).1.2 in
    rw (activated path cell g h shown at, set_keyed strings key path cell g h shown at)
      (
        keyed-IsGrid key name path cell g h,
        keyed-IsShown key name path cell g shown at,
        get_elem?-set_self g.edit_hk idx key
            (get_elem?_bound g.edit_hk idx cell.hardware_key parts.1),
      )

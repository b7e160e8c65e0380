-- ===== src/Grid/Cells.antt =====
-- The indices of the cells, and the rows of `recreateCellsKeyList`.
use native.Mathlib.Nat.{mul-le-mul_right}
use stmm_input_bt.Base.{
  subst, ap, dec_lt, get_elem?_bound, ℕ, zero, suc, ◌+◌, ◌*◌, ◌≤◌, ◌<◌, ◌≡◌, refl, sym, List, ◌∷◌,
  ◌++◌, some, length, get_elem?, get_elem?_total, get_elem?-append_split, inl, inr, ◌>>=◌, arith,
  Returns, Returns->>=,
}
use stmm_input_bt.Grid.State.{Grid, CellRow}
use stmm_input_bt.Grid.Edit.{cell_idx, cell_row, cells_of_column, cells_of_columns}

pub cell_idx_bound :
    (columns rows column row : ℕ)
    → column < columns
    → row < rows
    → cell_idx columns column row < columns * rows
cell_idx_bound columns rows column row h k =
    let next : suc row ≤ rows = omega (arith, k) in omega (arith, mul-le-mul_right columns next)

pub cell_idx_injective :
    (columns x y x' y' : ℕ)
    → x < columns
    → x' < columns
    → cell_idx columns x y ≡ cell_idx columns x' y'
    → (x ≡ x') × (y ≡ y')
cell_idx_injective columns x y x' y' h h' e =
    let same : y ≡ y' = elim (dec_lt y y') [
      | yes less ↦
          let next : suc y ≤ y' = omega (arith, less) in
          absurd (omega (arith, mul-le-mul_right columns next))
      | no not_less ↦ elim (dec_lt y' y) [
        | yes less ↦
            let next : suc y' ≤ y = omega (arith, less) in
            absurd (omega (arith, mul-le-mul_right columns next))
        | no not_greater ↦ omega (arith, not_less, not_greater)
      ]
    ] in
    let products : y * columns ≡ y' * columns = ap (λ n. n * columns) same in
    (omega (arith, products), same)

-- The cell at a place of the list, from this column and row on, with `rows` rows in a column.
abbrev pub IsCellAt : Grid → ℕ → ℕ → CellRow → Type 0
IsCellAt g place rows cell =
    (cell.y < rows) × (place ≡ cell.x * rows + cell.y) × (cell_row g cell.x cell.y ≡ some cell)

-- All names and keys of the grid's cells are there.
abbrev pub Fits : Grid → Type 0
Fits g =
    (g.tot_columns * g.tot_rows ≤ length g.edit_names)
    × (g.tot_columns * g.tot_rows ≤ length g.edit_hk)

cell_row_total :
    (g : Grid) (column row : ℕ)
    → Fits g
    → column < g.tot_columns
    → row < g.tot_rows
    → Returns
        (λ cell. (cell.x ≡ column) × (cell.y ≡ row) × (cell_row g cell.x cell.y ≡ some cell))
        (cell_row g column row)
unfolding cell_row
cell_row_total g column row fits h k =
    let bound = cell_idx_bound g.tot_columns g.tot_rows column row h k in
    let (name, named) =
      get_elem?_total g.edit_names (cell_idx g.tot_columns column row) (omega (arith, bound)) in
    let (key, at) =
      get_elem?_total g.edit_hk (cell_idx g.tot_columns column row) (omega (arith, bound)) in
    rw (named, at) (refl, refl, rw (named, at) refl)

-- The cells of a column from this row on.
abbrev InColumn : Grid → ℕ → ℕ → List CellRow → Type 0
InColumn g column row cells =
    (i : ℕ) (cell : CellRow)
    → get_elem? cells i ≡ some cell
    → (cell.x ≡ column) × (cell.y ≡ row + i) × (cell_row g cell.x cell.y ≡ some cell)

cells_cons :
    (g : Grid) (column row : ℕ) (first : CellRow) (cells : List CellRow)
    → (first.x ≡ column) × (first.y ≡ row) × (cell_row g first.x first.y ≡ some first)
    → InColumn g column (suc row) cells
    → InColumn g column row (first ∷ cells)
cells_cons g column row first cells h k zero cell at =
    let same : first ≡ cell = ground arith in
    subst (λ c. (c.x ≡ column) × (c.y ≡ row + 0) × (cell_row g c.x c.y ≡ some c)) same
      (h.0, omega (arith, h.1), h.2)
cells_cons g column row first cells h k (suc i) cell at =
    let found = k i cell at in (found.0, omega (arith, found.1), found.2)

cells_of_column_total :
    (n : ℕ) (g : Grid) (column row : ℕ)
    → Fits g
    → column < g.tot_columns
    → row + n ≤ g.tot_rows
    → Returns
        (λ cells. (length cells ≡ n) × InColumn g column row cells)
        (cells_of_column n g column row)
unfolding cells_of_column
cells_of_column_total zero g column row fits h k = (refl, λ i cell at. absurd (ground arith))
cells_of_column_total (suc n) g column row fits h k =
    Returns->>=
      (λ cell. (cell.x ≡ column) × (cell.y ≡ row) × (cell_row g cell.x cell.y ≡ some cell))
      (λ cells. (length cells ≡ suc n) × InColumn g column row cells) (cell_row g column row)
      (λ cell. do cells ← cells_of_column n g column (suc row); some (cell ∷ cells))
      (cell_row_total g column row fits h (omega (arith, k)))
      (λ first at_first.
        Returns->>= (λ cells. (length cells ≡ n) × InColumn g column (suc row) cells)
          (λ cells. (length cells ≡ suc n) × InColumn g column row cells)
          (cells_of_column n g column (suc row)) (λ cells. some (first ∷ cells))
          (cells_of_column_total n g column (suc row) fits h (omega (arith, k)))
          (λ cells rest. (ap suc rest.0, cells_cons g column row first cells at_first rest.1)))

-- The cells of the columns from this one on: the list has them column by column.
abbrev pub InColumns : Grid → ℕ → ℕ → List CellRow → Type 0
InColumns g column n cells =
    (i : ℕ) (cell : CellRow)
    → get_elem? cells i ≡ some cell
    → (cell.x < column + n) × IsCellAt g (column * g.tot_rows + i) g.tot_rows cell

cells_append :
    (g : Grid) (column n : ℕ) (cells more : List CellRow)
    → length cells ≡ g.tot_rows
    → InColumn g column 0 cells
    → InColumns g (suc column) n more
    → InColumns g column (suc n) (cells ++ more)
cells_append g column n cells more size first rest i cell at =
    elim (get_elem?-append_split cells more i cell at) [
      | inl here ↦
          let found = first i cell here in
          let bound : i < length cells = get_elem?_bound cells i cell here in
          let place : column * g.tot_rows ≡ cell.x * g.tot_rows =
            ap (λ x. x * g.tot_rows) (sym found.0) in
          (
            omega (arith, found.0),
            (omega (arith, found.1, bound, size), omega (arith, place, found.1), found.2),
          )
      | inr (j, e, there) ↦
          let found = rest j cell there in
          (omega (arith, found.0), (found.1.0, omega (arith, found.1.1, e, size), found.1.2))
    ]

pub cells_of_columns_total :
    (n : ℕ) (g : Grid) (column : ℕ)
    → Fits g
    → column + n ≤ g.tot_columns
    → Returns (InColumns g column n) (cells_of_columns n g column)
unfolding cells_of_columns
cells_of_columns_total zero g column fits h = λ i cell at. absurd (ground arith)
cells_of_columns_total (suc n) g column fits h =
    Returns->>= (λ cells. (length cells ≡ g.tot_rows) × InColumn g column 0 cells)
      (InColumns g column (suc n)) (cells_of_column g.tot_rows g column 0)
      (λ cells. do more ← cells_of_columns n g (suc column); some (cells ++ more))
      (cells_of_column_total g.tot_rows g column 0 fits (omega (arith, h)) (omega arith))
      (λ cells first.
        Returns->>= (InColumns g (suc column) n) (InColumns g column (suc n))
          (cells_of_columns n g (suc column)) (λ more. some (cells ++ more))
          (cells_of_columns_total n g (suc column) fits (omega (arith, h)))
          (λ more rest. cells_append g column n cells more first.0 first.1 rest))

-- ===== src/KeyboardScreen/Cells.antt =====
-- keyboardscreen.cc: `calcCellPositions` and `getKeyFromCoords`.
use stmm_input_bt.Base.{
  ℕ, zero, suc, ◌+◌, Bool, false, ◌&&◌, List, [], ◌∷◌, Option, none, some, ℤ, pos, negsuc, pos_part,
  get_elem?, ltb, leb, if◌then◌else◌, ◌>>=◌,
}
use stmm_input_bt.Grid.State.{Grid, hk_null}
use stmm_input_bt.Grid.Edit.{cell_idx}

abbrev pub margin : ℕ
margin = 3

-- The loop that adds up the weights, which are positive.
unfoldable pub tot_weight : List ℤ → ℕ
tot_weight [] = 0
tot_weight (w ∷ weights) = pos_part w + tot_weight weights

-- `m_aColumnPosX` and `m_aRowPosY`
pub record Places : Type 0 where
  pub column_pos_x : List ℕ
  pub row_pos_y : List ℕ

-- The size of a cell of some weight, by the weight of all cells and their size together: a product of
-- floating point numbers, rounded down.
module _ (cell_size : ℕ → ℕ → ℕ → ℕ) where
  -- The positions of `n` more cells, from this one on.
  unfoldable pub positions : ℕ → ℕ → ℕ → ℕ → List ℤ → Option (List ℕ)
  positions total pix zero x weights = some (x ∷ [])
  positions total pix (suc n) x [] = none
  positions total pix (suc n) x (w ∷ weights) = do
    rest ← positions total pix n (x + cell_size (pos_part w) total pix) weights
    some (x ∷ rest)

  -- `calcCellPositions`
  unfoldable pub calc_cell_positions : ℕ → ℕ → Grid → Option Places
  unfolding positions tot_weight
  calc_cell_positions pix_w pix_h g = do
    columns ←
        positions (tot_weight g.edit_columns_weight) pix_w g.tot_columns 0 g.edit_columns_weight
    rows ← positions (tot_weight g.edit_rows_weight) pix_h g.tot_rows 0 g.edit_rows_weight
    some (record { column_pos_x = columns; row_pos_y = rows })

-- A coordinate is between a position and, without the margin, the next one.
abbrev pub is_between : ℕ → ℕ → ℤ → Bool
is_between low high (pos x) = leb low x && ltb (x + margin) high
is_between low high (negsuc x) = false

-- The test of one cell: its key if the point is in it.
unfoldable pub cell_hit : Grid → Places → ℤ → ℤ → ℕ → ℕ → Option (Option ℕ)
cell_hit g p x y column row = do
  x1 ← get_elem? p.column_pos_x column
  y1 ← get_elem? p.row_pos_y row
  x2 ← get_elem? p.column_pos_x (suc column)
  y2 ← get_elem? p.row_pos_y (suc row)
  key ← get_elem? g.edit_hk (cell_idx g.tot_columns column row)
  some (if is_between x1 x2 x && is_between y1 y2 y then some key else none)

-- The inner loop of `getKeyFromCoords`, over `n` rows from this one on.
unfoldable pub hit_in_column : ℕ → Grid → Places → ℤ → ℤ → ℕ → ℕ → Option (Option ℕ)
unfolding cell_hit
hit_in_column zero g p x y column row = some none
hit_in_column (suc n) g p x y column row = do
  hit ← cell_hit g p x y column row
  let rest = hit_in_column n g p x y column (suc row)
  elim hit [ none ↦ rest | some key ↦ some (some key) ]

-- The outer loop, over `n` columns from this one on.
unfoldable pub hit_in_columns : ℕ → Grid → Places → ℤ → ℤ → ℕ → Option (Option ℕ)
unfolding hit_in_column
hit_in_columns zero g p x y column = some none
hit_in_columns (suc n) g p x y column = do
  hit ← hit_in_column g.tot_rows g p x y column 0
  let rest = hit_in_columns n g p x y (suc column)
  elim hit [ none ↦ rest | some key ↦ some (some key) ]

-- `getKeyFromCoords`
unfoldable pub get_key_from_coords : Grid → Places → ℤ → ℤ → Option ℕ
unfolding hit_in_columns
get_key_from_coords g p x y = do
  hit ← hit_in_columns g.tot_columns g p x y 0
  some (elim hit [ none ↦ hk_null | some key ↦ key ])

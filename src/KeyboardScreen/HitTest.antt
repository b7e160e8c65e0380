-- ===== src/KeyboardScreen/HitTest.antt =====
-- keyboardscreen.cc, `getKeyFromCoords`: the key of the one cell that is at the point, if there is one.
use stmm_input_bt.Base.{
  ℕ, ◌<◌, ◌≡◌, refl, subst, Option, none, some, ℤ, get_elem?, arith, Returns, Returns->>=,
}
use stmm_input_bt.Grid.State.{Grid, hk_null}
use stmm_input_bt.Grid.Edit.{cell_idx}
use stmm_input_bt.Grid.Wellformed.{IsGrid}
use stmm_input_bt.KeyboardScreen.Cells.{Places, hit_in_columns, get_key_from_coords}
use stmm_input_bt.KeyboardScreen.Places.{ArePlaces}
use stmm_input_bt.KeyboardScreen.Search.{IsIn, Finds, Right, Contains-not_later, hit_in_columns_lem}

-- The key of the cell that the point is in, or HK_NULL if it is in none.
abbrev pub IsKeyAt : Grid → Places → ℤ → ℤ → ℕ → Type 0
IsKeyAt g p x y key =
    ((column row : ℕ)
      → column < g.tot_columns
      → row < g.tot_rows
      → IsIn p x y column row
      → get_elem? g.edit_hk (cell_idx g.tot_columns column row) ≡ some key)
    × (((column row : ℕ) → column < g.tot_columns → row < g.tot_rows → IsIn p x y column row → ⊥)
        → key ≡ hk_null)

found-IsKeyAt :
    (g : Grid) (p : Places) (x y : ℤ) (pix_w pix_h : ℕ) (hit : Option ℕ)
    → ArePlaces pix_w pix_h g p
    → Finds (Right g.tot_rows g.tot_columns 0) g p x y hit
    → IsKeyAt g p x y (elim hit [ none ↦ hk_null | some key ↦ key ])
found-IsKeyAt g p x y pix_w pix_h none placed nothing = (
  (λ column row less below found.
      absurd (nothing column row (omega arith, omega (arith, less), below) found)),
  (λ nowhere. refl),
)
found-IsKeyAt g p x y pix_w pix_h (some key) placed (c, r, searched, there, at) = (
  (λ column row less below found.
      let same_column : c ≡ column = omega (
        arith,
        Contains-not_later p.column_pos_x c column x placed.0.sorted there.0 found.0,
        Contains-not_later p.column_pos_x column c x placed.0.sorted found.0 there.0,
      ) in
      let same_row : r ≡ row = omega (
        arith,
        Contains-not_later p.row_pos_y r row y placed.1.sorted there.1 found.1,
        Contains-not_later p.row_pos_y row r y placed.1.sorted found.1 there.1,
      ) in
      subst (λ n. get_elem? g.edit_hk (cell_idx g.tot_columns n row) ≡ some key) same_column
        (subst (λ n. get_elem? g.edit_hk (cell_idx g.tot_columns c n) ≡ some key) same_row at)),
  (λ nowhere. absurd (nowhere c r (omega (arith, searched.1)) searched.2 there)),
)

-- `getKeyFromCoords` of a well-formed grid with the places that `calcCellPositions` computed: it
-- returns; if the point is in a cell the result is the key of that cell, and if it is in no cell the
-- result is HK_NULL.
pub get_key_from_coords_lem :
    (g : Grid) (p : Places) (x y : ℤ) (pix_w pix_h : ℕ)
    → IsGrid g
    → ArePlaces pix_w pix_h g p
    → Returns (IsKeyAt g p x y) (get_key_from_coords g p x y)
unfolding get_key_from_coords
get_key_from_coords_lem g p x y pix_w pix_h h placed =
    Returns->>= (Finds (Right g.tot_rows g.tot_columns 0) g p x y) (IsKeyAt g p x y)
      (hit_in_columns g.tot_columns g p x y 0)
      (λ hit. some (elim hit [ none ↦ hk_null | some key ↦ key ]))
      (hit_in_columns_lem g p x y pix_w pix_h h placed g.tot_columns 0 (omega arith))
      (λ hit. found-IsKeyAt g p x y pix_w pix_h hit placed)

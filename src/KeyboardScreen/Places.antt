-- ===== src/KeyboardScreen/Places.antt =====
-- keyboardscreen.cc, `calcCellPositions`: the positions are sorted and end within the size.
use native.Mathlib.Nat.{mul-le-mul_right}
use stmm_input_bt.Base.{
  dec_lt, ℕ, zero, suc, ◌+◌, ◌*◌, ◌≤◌, ◌≡◌, refl, ap, List, [], ◌∷◌, some, ℤ, pos_part, length,
  get_elem?, arith, Returns, Returns->>=,
}
use stmm_input_bt.Grid.State.{Grid}
use stmm_input_bt.Grid.Wellformed.{AreWeights, IsGrid}
use stmm_input_bt.KeyboardScreen.Cells.{Places, tot_weight, positions, calc_cell_positions}

abbrev pub AreSorted : List ℕ → Type 0
AreSorted [] = Unit {0}
AreSorted (x ∷ []) = Unit {0}
AreSorted (x ∷ y ∷ xs) = (x ≤ y) × AreSorted (y ∷ xs)

sorted_head : (xs : List ℕ) (x a i : ℕ) → AreSorted (x ∷ xs) → get_elem? (x ∷ xs) i ≡ some a → x ≤ a
sorted_head xs x a zero h at = ground arith
sorted_head [] x a (suc i) h at = absurd (ground arith)
sorted_head (y ∷ xs) x a (suc i) h at = omega (arith, sorted_head xs y a i h.1 at, h.0)

pub AreSorted-le :
    (xs : List ℕ) (i j a b : ℕ)
    → AreSorted xs
    → i ≤ j
    → get_elem? xs i ≡ some a
    → get_elem? xs j ≡ some b
    → a ≤ b
AreSorted-le [] i j a b h le at_i at_j = absurd (ground arith)
AreSorted-le (x ∷ xs) zero j a b h le at_i at_j =
    let first : x ≤ b = sorted_head xs x b j h at_j in ground (arith, first)
AreSorted-le (x ∷ xs) (suc i) zero a b h le at_i at_j = absurd (omega (arith, le))
AreSorted-le (x ∷ []) (suc i) (suc j) a b h le at_i at_j = absurd (ground arith)
AreSorted-le (x ∷ y ∷ xs) (suc i) (suc j) a b h le at_i at_j =
    AreSorted-le (y ∷ xs) i j a b h.1 (omega (arith, le)) at_i at_j

-- The positions of `n` cells: sorted, from `first` on, and none after `last`.
pub record ArePositions (n first last : ℕ) (xs : List ℕ) : Type 0 where
  pub size : length xs ≡ suc n
  pub sorted : AreSorted xs
  pub starts : get_elem? xs 0 ≡ some first
  pub inside : (i a : ℕ) → get_elem? xs i ≡ some a → a ≤ last

positions_inside :
    (x r pix : ℕ) (rest : List ℕ)
    → x ≤ pix
    → ((i a : ℕ) → get_elem? (r ∷ rest) i ≡ some a → a ≤ pix)
    → (i a : ℕ) → get_elem? (x ∷ r ∷ rest) i ≡ some a
    → a ≤ pix
positions_inside x r pix rest h k zero a at = ground arith
positions_inside x r pix rest h k (suc i) a at = k i a at

positions_one : (x pix : ℕ) → x ≤ pix → (i a : ℕ) → get_elem? (x ∷ []) i ≡ some a → a ≤ pix
positions_one x pix h zero a at = ground arith
positions_one x pix h (suc i) a at = absurd (ground arith)

positions_cons :
    (n x more pix : ℕ) (rest : List ℕ)
    → x ≤ more
    → ArePositions n more pix rest
    → ArePositions (suc n) x pix (x ∷ rest)
positions_cons n x more pix [] h k = absurd (omega (arith, k.size))
positions_cons n x more pix (r ∷ rest) h k =
    let first : r ≡ more = let e = k.starts in ground arith in
    let inside : r ≤ pix = k.inside 0 r refl in
    record {
      size = ap suc k.size;
      sorted = (omega (arith, first, h), k.sorted);
      starts = refl;
      inside = positions_inside x r pix rest (omega (arith, first, h, inside)) k.inside;
    }

-- A product that is not larger has a factor that is not larger.
factor_le : (x pix total : ℕ) → 1 ≤ total → x * total ≤ total * pix → x ≤ pix
factor_le x pix total one h = elim (dec_lt pix x) [
  | yes less ↦
      let next : suc pix ≤ x = omega (arith, less) in
      absurd (omega (arith, mul-le-mul_right total next, h, one))
  | no fits ↦ omega (arith, fits)
]

-- The places that `calcCellPositions` computes.
abbrev pub ArePlaces : ℕ → ℕ → Grid → Places → Type 0
ArePlaces pix_w pix_h g p =
    ArePositions g.tot_columns 0 pix_w p.column_pos_x × ArePositions g.tot_rows 0 pix_h p.row_pos_y

-- Rounding down, the cells together are not larger than the size that is shared out.
module _ (cell_size : ℕ → ℕ → ℕ → ℕ)
    (round_down : (w total pix : ℕ) → cell_size w total pix * total ≤ w * pix) where
  positions_lem :
      (total pix n x : ℕ) (weights : List ℤ)
      → 1 ≤ total
      → length weights ≡ n
      → x * total + tot_weight weights * pix ≤ total * pix
      → Returns (ArePositions n x pix) (positions cell_size total pix n x weights)
  unfolding positions tot_weight
  positions_lem total pix zero x weights one size h = record {
    size = refl;
    sorted = tt;
    starts = refl;
    inside = positions_one x pix (factor_le x pix total one (omega (arith, h)));
  }
  positions_lem total pix (suc n) x [] one size h = absurd (omega (arith, size))
  positions_lem total pix (suc n) x (w ∷ weights) one size h =
      let more = x + cell_size (pos_part w) total pix in
      Returns->>= (ArePositions n more pix) (ArePositions (suc n) x pix)
        (positions cell_size total pix n more weights) (λ rest. some (x ∷ rest))
        (positions_lem total pix n more weights one (omega (arith, size))
          (omega (arith, round_down (pos_part w) total pix, h)))
        (λ rest k. positions_cons n x more pix rest (omega arith) k)

  some_weight :
      (total : ℕ) (weights : List ℤ) → 1 ≤ total → AreWeights total weights → 1 ≤ tot_weight weights
  unfolding tot_weight
  some_weight total [] h k = absurd (omega (arith, k.0))
  some_weight total (w ∷ weights) h k = omega (arith, k.1.0)

  -- `calcCellPositions` of a well-formed grid, where the cells' sizes are rounded down: it returns, the
  -- positions of the columns and rows are sorted, start at 0 and do not exceed the size.
  pub calc_cell_positions_lem :
      (pix_w pix_h : ℕ) (g : Grid)
      → IsGrid g
      → Returns (ArePlaces pix_w pix_h g) (calc_cell_positions cell_size pix_w pix_h g)
  unfolding calc_cell_positions
  calc_cell_positions_lem pix_w pix_h g h =
      let columns = some_weight g.tot_columns g.edit_columns_weight h.columns.0 h.column_weights in
      let rows = some_weight g.tot_rows g.edit_rows_weight h.rows.0 h.row_weights in
      Returns->>= (ArePositions g.tot_columns 0 pix_w) (ArePlaces pix_w pix_h g)
        (positions cell_size (tot_weight g.edit_columns_weight) pix_w g.tot_columns 0
          g.edit_columns_weight)
        _
        (positions_lem (tot_weight g.edit_columns_weight) pix_w g.tot_columns 0
          g.edit_columns_weight columns h.column_weights.0 (omega arith))
        (λ xs placed_columns.
          Returns->>= (ArePositions g.tot_rows 0 pix_h) (ArePlaces pix_w pix_h g)
            (positions cell_size (tot_weight g.edit_rows_weight) pix_h g.tot_rows 0
              g.edit_rows_weight)
            _
            (positions_lem (tot_weight g.edit_rows_weight) pix_h g.tot_rows 0 g.edit_rows_weight
              rows h.row_weights.0 (omega arith))
            (λ ys placed_rows. (placed_columns, placed_rows)))

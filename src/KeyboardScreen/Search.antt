-- ===== src/KeyboardScreen/Search.antt =====
-- keyboardscreen.cc, `getKeyFromCoords`: what its loops find.
use stmm_input_bt.Base.{
  ℕ_discrete, ◌⊎◌, ℕ, zero, suc, ◌+◌, ◌≤◌, ◌<◌, ◌≡◌, refl, sym, ap, subst, ◌∙◌, true, false, ◌&&◌,
  List, Option, none, some, ℤ, pos, negsuc, get_elem?, get_elem?_total, if◌then◌else◌, arith,
  dec_lt, Bool-cases, inl, inr, Returns, Returns->>=, Returns-weaken,
}
use stmm_input_bt.Grid.State.{Grid}
use stmm_input_bt.Grid.Edit.{cell_idx}
use stmm_input_bt.Grid.Cells.{cell_idx_bound}
use stmm_input_bt.Grid.Wellformed.{IsGrid}
use stmm_input_bt.KeyboardScreen.Cells.{Places, is_between, cell_hit, hit_in_column, hit_in_columns}
use stmm_input_bt.KeyboardScreen.Places.{AreSorted, AreSorted-le, ArePlaces}

-- The coordinate is in the column or row of this number.
abbrev pub Contains : List ℕ → ℕ → ℤ → Type 0
Contains xs i c =
    (low : ℕ) × (high : ℕ) × (get_elem? xs i ≡ some low)
    × (get_elem? xs (suc i) ≡ some high)
    × (is_between low high c ≡ true)

-- It is in one at most.
apart :
    (low high low' high' : ℕ) (c : ℤ)
    → high ≤ low'
    → is_between low high c ≡ true
    → is_between low' high' c ≡ false
apart low high low' high' (pos x) h k = ground arith
apart low high low' high' (negsuc x) h k = refl

pub Contains-not_later :
    (xs : List ℕ) (i j : ℕ) (c : ℤ) → AreSorted xs → Contains xs i c → Contains xs j c → j ≤ i
Contains-not_later xs i j c sorted (low, high, at, next, here) (low', high', at', next', there) =
    elim (dec_lt i j) [
      | no later ↦ omega (arith, later)
      | yes less ↦
          let le : high ≤ low' =
            AreSorted-le xs (suc i) j high low' sorted (omega (arith, less)) next at' in
          let away = apart low high low' high' c le here in absurd cc
    ]

Contains-false :
    (xs : List ℕ) (i j low high : ℕ) (c : ℤ)
    → get_elem? xs i ≡ some low
    → get_elem? xs (suc i) ≡ some high
    → is_between low high c ≡ false
    → j ≡ i
    → Contains xs j c
    → ⊥
Contains-false xs i j low high c at next away same (low', high', at', next', here) =
    let first : some low ≡ some low' = sym at ∙ ap (get_elem? xs) (sym same) ∙ at' in
    let second : some high ≡ some high' =
      sym next ∙ ap (λ n. get_elem? xs (suc n)) (sym same) ∙ next' in
    let same_low : low ≡ low' = ground arith in
    let same_high : high ≡ high' = ground arith in
    let away' : is_between low' high' c ≡ false =
      ap (λ n. is_between n high' c) (sym same_low)
      ∙ ap (λ n. is_between low n c) (sym same_high)
      ∙ away in
    cc

-- The point is in the cell.
abbrev pub IsIn : Places → ℤ → ℤ → ℕ → ℕ → Type 0
IsIn p x y column row = Contains p.column_pos_x column x × Contains p.row_pos_y row y

-- What a search among some cells finds.
abbrev pub Finds : (ℕ → ℕ → Type 0) → Grid → Places → ℤ → ℤ → Option ℕ → Type 0
Finds Searched g p x y none = (column row : ℕ) → Searched column row → IsIn p x y column row → ⊥
Finds Searched g p x y (some key) =
    (column : ℕ) × (row : ℕ) × Searched column row
    × IsIn p x y column row
    × (get_elem? g.edit_hk (cell_idx g.tot_columns column row) ≡ some key)

abbrev Here : ℕ → ℕ → ℕ → ℕ → Type 0
Here column row c r = (c ≡ column) × (r ≡ row)

-- The rows of a column from this one on, and the columns from this one on.
abbrev Below : ℕ → ℕ → ℕ → ℕ → ℕ → Type 0
Below n column row c r = (c ≡ column) × (row ≤ r) × (r < row + n)

abbrev pub Right : ℕ → ℕ → ℕ → ℕ → ℕ → Type 0
Right rows n column c r = (column ≤ c) × (c < column + n) × (r < rows)

-- A search that goes on where another has found nothing.
Finds-then :
    (S S' T : ℕ → ℕ → Type 0) (g : Grid) (p : Places) (x y : ℤ) (out : Option ℕ)
    → ((c r : ℕ) → S' c r → T c r)
    → ((c r : ℕ) → T c r → S c r ⊎ S' c r)
    → Finds S g p x y none
    → Finds S' g p x y out
    → Finds T g p x y out
Finds-then S S' T g p x y none into split first rest = λ column row searched here.
    elim (split column row searched) [
      | inl before ↦ first column row before here
      | inr after ↦ rest column row after here
    ]
Finds-then S S' T g p x y (some key) into split first (column, row, searched, found, at) =
    (column, row, into column row searched, found, at)

Finds-widen :
    (S T : ℕ → ℕ → Type 0) (g : Grid) (p : Places) (x y : ℤ) (key : ℕ)
    → ((c r : ℕ) → S c r → T c r)
    → Finds S g p x y (some key)
    → Finds T g p x y (some key)
Finds-widen S T g p x y key into (column, row, searched, found, at) =
    (column, row, into column row searched, found, at)

-- The two searches, one after the other.
search_on :
    (S S' T : ℕ → ℕ → Type 0) (g : Grid) (p : Places) (x y : ℤ) (first : Option ℕ)
    (rest : Option (Option ℕ))
    → ((c r : ℕ) → S c r → T c r)
    → ((c r : ℕ) → S' c r → T c r)
    → ((c r : ℕ) → T c r → S c r ⊎ S' c r)
    → Finds S g p x y first
    → Returns (Finds S' g p x y) rest
    → Returns (Finds T g p x y) (elim first [ none ↦ rest | some key ↦ some (some key) ])
search_on S S' T g p x y none rest before after split nothing later =
    Returns-weaken (Finds S' g p x y) (Finds T g p x y) rest later
      (λ out. Finds-then S S' T g p x y out after split nothing)
search_on S S' T g p x y (some key) rest before after split found later =
    Finds-widen S T g p x y key before found

module _ (g : Grid) (p : Places) (x y : ℤ) (pix_w pix_h : ℕ) (h : IsGrid g)
    (placed : ArePlaces pix_w pix_h g p) where
  cell_hit_lem :
      (column row : ℕ)
      → column < g.tot_columns
      → row < g.tot_rows
      → Returns (Finds (Here column row) g p x y) (cell_hit g p x y column row)
  unfolding cell_hit
  cell_hit_lem column row less below =
      let (x1, at_x1) =
        get_elem?_total p.column_pos_x column (omega (arith, placed.0.size, less)) in
      let (x2, at_x2) =
        get_elem?_total p.column_pos_x (suc column) (omega (arith, placed.0.size, less)) in
      let (y1, at_y1) = get_elem?_total p.row_pos_y row (omega (arith, placed.1.size, below)) in
      let (y2, at_y2) =
        get_elem?_total p.row_pos_y (suc row) (omega (arith, placed.1.size, below)) in
      let bound = cell_idx_bound g.tot_columns g.tot_rows column row less below in
      let (key, at_key) =
        get_elem?_total g.edit_hk (cell_idx g.tot_columns column row)
          (omega (arith, bound, h.fits.1)) in
      let e : cell_hit g p x y column row
          ≡ some (if is_between x1 x2 x && is_between y1 y2 y then some key else none) =
        rw (at_x1, at_y1, at_x2, at_y2, at_key) refl in
      rw e (elim (Bool-cases (is_between x1 x2 x)) [
        | inr away ↦ rw away (λ c r here found.
            Contains-false p.column_pos_x column c x1 x2 x at_x1 at_x2 away here.0 found.0)
        | inl in_column ↦ elim (Bool-cases (is_between y1 y2 y)) [
          | inr away ↦
              rw (in_column, away)
                (λ c r here found.
                  Contains-false p.row_pos_y row r y1 y2 y at_y1 at_y2 away here.1 found.1)
          | inl in_row ↦
              let both : (is_between x1 x2 x && is_between y1 y2 y) ≡ true =
                ground (arith, in_column, in_row) in
              let outcome : (if is_between x1 x2 x && is_between y1 y2 y then some key else none)
                  ≡ some key =
                rw both refl in
              subst (Finds (Here column row) g p x y) (sym outcome) (
                column,
                row,
                (refl, refl),
                ((x1, x2, at_x1, at_x2, in_column), (y1, y2, at_y1, at_y2, in_row)),
                at_key,
              )
        ]
      ])

  hit_in_column_lem :
      (n column row : ℕ)
      → column < g.tot_columns
      → row + n ≤ g.tot_rows
      → Returns (Finds (Below n column row) g p x y) (hit_in_column n g p x y column row)
  unfolding hit_in_column
  hit_in_column_lem zero column row less below = λ c r searched found. absurd (omega arith)
  hit_in_column_lem (suc n) column row less below =
      Returns->>= (Finds (Here column row) g p x y) (Finds (Below (suc n) column row) g p x y)
        (cell_hit g p x y column row) _ (cell_hit_lem column row less (omega (arith, below)))
        (λ hit found.
          search_on (Here column row) (Below n column (suc row)) (Below (suc n) column row) g p x y
            hit (hit_in_column n g p x y column (suc row))
            (λ c r s. (s.0, omega (arith, s.1), omega (arith, s.1)))
            (λ c r s. (s.0, omega (arith, s.1), omega (arith, s.2)))
            (λ c r s. elim (ℕ_discrete r row) [
              | yes same ↦ inl (s.0, same)
              | no other ↦ inr (s.0, omega (arith, s.1, other), omega (arith, s.2))
            ])
            found (hit_in_column_lem n column (suc row) less (omega (arith, below))))

  pub hit_in_columns_lem :
      (n column : ℕ)
      → column + n ≤ g.tot_columns
      → Returns (Finds (Right g.tot_rows n column) g p x y) (hit_in_columns n g p x y column)
  unfolding hit_in_columns
  hit_in_columns_lem zero column less = λ c r searched found. absurd (omega arith)
  hit_in_columns_lem (suc n) column less =
      Returns->>= (Finds (Below g.tot_rows column 0) g p x y)
        (Finds (Right g.tot_rows (suc n) column) g p x y)
        (hit_in_column g.tot_rows g p x y column 0) _
        (hit_in_column_lem g.tot_rows column 0 (omega (arith, less)) (omega arith))
        (λ hit found.
          search_on (Below g.tot_rows column 0) (Right g.tot_rows n (suc column))
            (Right g.tot_rows (suc n) column) g p x y hit (hit_in_columns n g p x y (suc column))
            (λ c r s. (omega (arith, s.0), omega (arith, s.0), omega (arith, s.2)))
            (λ c r s. (omega (arith, s.0), omega (arith, s.1), s.2))
            (λ c r s. elim (ℕ_discrete c column) [
              | yes same ↦ inl (same, omega arith, omega (arith, s.2))
              | no other ↦ inr (omega (arith, s.0, other), omega (arith, s.1), s.2)
            ])
            found (hit_in_columns_lem n (suc column) (omega (arith, less))))

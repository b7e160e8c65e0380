-- ===== src/Screens/WeightLaws.antt =====
-- weightscreen.cc with btkbwindow.cc: a weight is chosen for a column or a row, from the activated row of the
-- list to the changed grid.
use stmm_input_bt.Base.{
  ℕ, zero, suc, ◌+◌, ◌<◌, ◌≡◌, refl, ◌∙◌, Bool, true, false, List, [], ◌∷◌, some, ℤ, ◌≤ℤ◌, leb_ℤ,
  ltb, length, length-set, get_elem?, get_elem?_total, get_elem?-set_self, set, ◌&&◌, if◌then◌else◌,
  arith, Returns, lt→ltb,
}
use stmm_input_bt.Util.Bounds.{AllIn}
use stmm_input_bt.Grid.State.{Grid, WeightRow, edit_min_weight, edit_max_weight}
use stmm_input_bt.Grid.Edit.{
  write_at, write_weight, set_weight, weight_rows_from, on_weight_activated,
}
use stmm_input_bt.Grid.Wellformed.{IsGrid}
use stmm_input_bt.Screens.Weight.{
  WeightScreen, change_to, on_spin_weight_changed, on_button_answer_ok,
}

-- The list of weights shows the weights.
weight_rows_from-at :
    (i p : ℕ) (weights : List ℤ) (weight : ℤ)
    → get_elem? weights p ≡ some weight
    → get_elem? (weight_rows_from i weights) p ≡ some (record { idx = i + p; weight = weight })
unfolding weight_rows_from
weight_rows_from-at i p [] weight at = absurd (ground arith)
weight_rows_from-at i zero (w ∷ weights) weight at = ground arith
weight_rows_from-at i (suc p) (w ∷ weights) weight at =
    ground (arith, weight_rows_from-at (suc i) p weights weight at)

weight_rows_from-set :
    (i p : ℕ) (weights : List ℤ) (weight : ℤ)
    → p < length weights
    → set (weight_rows_from i weights) p (record { idx = i + p; weight = weight })
      ≡ weight_rows_from i (set weights p weight)
unfolding weight_rows_from
weight_rows_from-set i p [] weight h = absurd (omega arith)
weight_rows_from-set i zero (w ∷ weights) weight h = ground arith
weight_rows_from-set i (suc p) (w ∷ weights) weight h =
    ground (arith, weight_rows_from-set (suc i) p weights weight (omega arith))

AllIn-at :
    (low high : ℤ) (weights : List ℤ) (p : ℕ) (weight : ℤ)
    → AllIn low high weights
    → get_elem? weights p ≡ some weight
    → (low ≤ℤ weight) × (weight ≤ℤ high)
AllIn-at low high [] p weight h at = absurd (ground arith)
AllIn-at low high (w ∷ weights) zero weight h at = ground arith
AllIn-at low high (w ∷ weights) (suc p) weight h at = AllIn-at low high weights p weight h.2 at

AllIn-set :
    (low high : ℤ) (weights : List ℤ) (p : ℕ) (weight : ℤ)
    → AllIn low high weights
    → low ≤ℤ weight
    → weight ≤ℤ high
    → AllIn low high (set weights p weight)
AllIn-set low high [] p weight h l u = tt
AllIn-set low high (w ∷ weights) zero weight h l u = (l, u, h.2)
AllIn-set low high (w ∷ weights) (suc p) weight h l u =
    (h.0, h.1, AllIn-set low high weights p weight h.2 l u)

-- The weights of the columns, or those of the rows.
abbrev pub weights_of : Bool → Grid → List ℤ
weights_of is_column g = if is_column then g.edit_columns_weight else g.edit_rows_weight

abbrev pub rows_of : Bool → Grid → List WeightRow
rows_of is_column g = if is_column then g.column_weight_rows else g.row_weight_rows

-- Both lists show their weights.
abbrev pub AreWeightsShown : Grid → Type 0
AreWeightsShown g =
    (g.column_weight_rows ≡ weight_rows_from 0 g.edit_columns_weight)
    × (g.row_weight_rows ≡ weight_rows_from 0 g.edit_rows_weight)

abbrev weighed : Bool → ℕ → ℤ → Grid → Grid
weighed true i weight g = record g {
  edit_columns_weight = set g.edit_columns_weight i weight;
  column_weight_rows = weight_rows_from 0 (set g.edit_columns_weight i weight);
}
weighed false i weight g = record g {
  edit_rows_weight = set g.edit_rows_weight i weight;
  row_weight_rows = weight_rows_from 0 (set g.edit_rows_weight i weight);
}

set_weight-weighed :
    (is_column : Bool) (i : ℕ) (weight : ℤ) (g : Grid)
    → AreWeightsShown g
    → i < length (weights_of is_column g)
    → set_weight weight is_column i i g ≡ some (weighed is_column i weight g)
unfolding set_weight write_at write_weight
set_weight-weighed true i weight g shown inside =
    let (old, at) = get_elem?_total g.edit_columns_weight i inside in
    ground (
      arith,
      shown.0,
      weight_rows_from-at 0 i g.edit_columns_weight old at,
      weight_rows_from-set 0 i g.edit_columns_weight weight inside,
    )
set_weight-weighed false i weight g shown inside =
    let (old, at) = get_elem?_total g.edit_rows_weight i inside in
    ground (
      arith,
      shown.1,
      weight_rows_from-at 0 i g.edit_rows_weight old at,
      weight_rows_from-set 0 i g.edit_rows_weight weight inside,
    )

weights-in :
    (is_column : Bool) (g : Grid)
    → IsGrid g
    → AllIn edit_min_weight edit_max_weight (weights_of is_column g)
weights-in true g h = h.column_weights.1
weights-in false g h = h.row_weights.1

weighed-IsGrid :
    (is_column : Bool) (i : ℕ) (weight : ℤ) (g : Grid)
    → IsGrid g
    → edit_min_weight ≤ℤ weight
    → weight ≤ℤ edit_max_weight
    → IsGrid (weighed is_column i weight g)
weighed-IsGrid true i weight g h l u = record {
  columns = h.columns;
  rows = h.rows;
  column_weights = (
    length-set g.edit_columns_weight i weight ∙ h.column_weights.0,
    AllIn-set edit_min_weight edit_max_weight g.edit_columns_weight i weight h.column_weights.1 l u,
  );
  row_weights = h.row_weights;
  fits = h.fits;
  same_size = h.same_size;
  exit_position = h.exit_position;
  exit_column = h.exit_column;
  exit_row = h.exit_row;
}
weighed-IsGrid false i weight g h l u = record {
  columns = h.columns;
  rows = h.rows;
  column_weights = h.column_weights;
  row_weights = (
    length-set g.edit_rows_weight i weight ∙ h.row_weights.0,
    AllIn-set edit_min_weight edit_max_weight g.edit_rows_weight i weight h.row_weights.1 l u,
  );
  fits = h.fits;
  same_size = h.same_size;
  exit_position = h.exit_position;
  exit_column = h.exit_column;
  exit_row = h.exit_row;
}

weighed-AreWeightsShown :
    (is_column : Bool) (i : ℕ) (weight : ℤ) (g : Grid)
    → AreWeightsShown g
    → AreWeightsShown (weighed is_column i weight g)
weighed-AreWeightsShown true i weight g shown = (refl, shown.1)
weighed-AreWeightsShown false i weight g shown = (shown.0, refl)

weighed-at :
    (is_column : Bool) (i : ℕ) (weight : ℤ) (g : Grid)
    → i < length (weights_of is_column g)
    → get_elem? (weights_of is_column (weighed is_column i weight g)) i ≡ some weight
weighed-at true i weight g inside = get_elem?-set_self g.edit_columns_weight i weight inside
weighed-at false i weight g inside = get_elem?-set_self g.edit_rows_weight i weight inside

rows_of-shown :
    (is_column : Bool) (g : Grid)
    → AreWeightsShown g
    → rows_of is_column g ≡ weight_rows_from 0 (weights_of is_column g)
rows_of-shown true g shown = shown.0
rows_of-shown false g shown = shown.1

-- What the activated row gives to the screen.
activated_weight :
    (is_column : Bool) (i : ℕ) (weight : ℤ) (g : Grid)
    → AreWeightsShown g
    → get_elem? (weights_of is_column g) i ≡ some weight
    → i < length (weights_of is_column g)
    → on_weight_activated i (rows_of is_column g) (weights_of is_column g) ≡ some (weight, i)
unfolding on_weight_activated
activated_weight is_column i weight g shown at inside =
    let row = weight_rows_from-at 0 i (weights_of is_column g) weight at in
    let within : ltb i (length (weights_of is_column g)) ≡ true = lt→ltb i _ inside in
    let same : (leb_ℤ weight weight && leb_ℤ weight weight) ≡ true = ground arith in
    ground (arith, rows_of-shown is_column g shown, row, within, at, same)

-- The screen is opened for the activated weight of a column or a row, where the lists show the weights,
-- the spin button then has any value in the range of the screen, and the user confirms: no assertion
-- fails, the grid is well-formed, the lists show its weights, and the column or row has the value.
pub weight_screen_lem :
    (is_column : Bool) (path : ℕ) (value : ℤ) (screen : WeightScreen) (g : Grid)
    → IsGrid g
    → AreWeightsShown g
    → path < length (weights_of is_column g)
    → screen.min_weight ≡ edit_min_weight
    → screen.max_weight ≡ edit_max_weight
    → edit_min_weight ≤ℤ value
    → value ≤ℤ edit_max_weight
    → Returns
        (λ (r : ℤ × ℕ).
          Returns
            (λ opened.
              Returns
                (λ g'.
                  IsGrid g'
                  × AreWeightsShown g'
                  × (get_elem? (weights_of is_column g') r.1 ≡ some value))
                (on_button_answer_ok (on_spin_weight_changed value opened) g))
            (change_to r.0 is_column r.1 path screen))
        (on_weight_activated path (rows_of is_column g) (weights_of is_column g))
unfolding change_to on_button_answer_ok
weight_screen_lem is_column path value screen g h shown inside low high l u =
    let (weight, at) = get_elem?_total (weights_of is_column g) path inside in
    let (above, below) =
      AllIn-at edit_min_weight edit_max_weight (weights_of is_column g) path weight
        (weights-in is_column g h) at in
    let within : (leb_ℤ screen.min_weight weight && leb_ℤ weight screen.max_weight) ≡ true =
      ground (arith, low, high, above, below) in
    rw
      (
        activated_weight is_column path weight g shown at inside,
        within,
        set_weight-weighed is_column path value g shown inside,
      )
      (
        weighed-IsGrid is_column path value g h l u,
        weighed-AreWeightsShown is_column path value g shown,
        weighed-at is_column path value g inside,
      )

-- ===== src/Screens/Weight.antt =====
-- weightscreen.cc: the weight that the user chooses for a column or a row.
use stmm_input_bt.Base.{ℕ, Bool, Option, some, ℤ, leb_ℤ, ◌&&◌, ◌>>◌, assert}
use stmm_input_bt.Grid.State.{Grid}
use stmm_input_bt.Grid.Edit.{set_weight}

pub record WeightScreen : Type 0 where
  pub path : ℕ
  pub is_column : Bool
  pub col_row : ℕ
  pub old_weight : ℤ
  pub weight : ℤ
  pub min_weight : ℤ
  pub max_weight : ℤ

-- `changeTo`, which always returns true. The adjustment gets the weight that the screen has then.
unfoldable pub change_to : ℤ → Bool → ℕ → ℕ → WeightScreen → Option WeightScreen
change_to weight is_column col_row path s = do
  assert (leb_ℤ s.min_weight weight && leb_ℤ weight s.max_weight)
  some (record s {
    path = path;
    is_column = is_column;
    col_row = col_row;
    old_weight = weight;
    weight = weight;
  })

-- `onSpinWeightChanged`, with the value of the spin button.
abbrev pub on_spin_weight_changed : ℤ → WeightScreen → WeightScreen
on_spin_weight_changed value s = record s { weight = value }

-- `onButtonAnswerOk`
unfoldable pub on_button_answer_ok : WeightScreen → Grid → Option Grid
on_button_answer_ok s g = set_weight s.weight s.is_column s.col_row s.path g

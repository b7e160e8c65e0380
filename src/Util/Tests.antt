-- ===== src/Util/Tests.antt =====
-- A vector's text.
use stmm_input_bt.Base.{◌≤◌, ◌≡◌, [], ◌∷◌, some, pos, length, arith, Returns}
use stmm_input_bt.Util.{comma, vector_to_string, string_to_vector}
use stmm_input_bt.Util.Bounds.{AllIn, string_to_vector_lem}
use stmm_input_bt.Util.SignTexts.{
  write_sign, read_sign, write_sign-some_text, write_sign-HasNoComma, read_sign-write_sign,
}
use stmm_input_bt.Util.RoundTrip.{string_to_vector-vector_to_string}

string_to_vector_lem_example :
    Returns
      (λ arr. AllIn (pos 1) (pos 5) arr × (2 ≤ length arr) × (length arr ≤ 4))
      (string_to_vector write_sign read_sign (0 ∷ 48 ∷ comma ∷ 7 ∷ []) 2 4 (pos 1) (pos 5) (pos 2))
string_to_vector_lem_example =
    string_to_vector_lem write_sign read_sign (0 ∷ 48 ∷ comma ∷ 7 ∷ []) 2 4 (pos 1) (pos 5) (pos 2)
      (omega arith) (omega arith) (omega arith) (omega arith)

string_to_vector-vector_to_string_example :
    string_to_vector write_sign read_sign
      (vector_to_string write_sign read_sign (pos 3 ∷ pos 1 ∷ []))
      2
      4
      (pos 1)
      (pos 5)
      (pos 2)
    ≡ some (pos 3 ∷ pos 1 ∷ [])
string_to_vector-vector_to_string_example =
    string_to_vector-vector_to_string write_sign read_sign write_sign-some_text
      write_sign-HasNoComma read_sign-write_sign (pos 3 ∷ pos 1 ∷ []) 2 4 (pos 1) (pos 5) (pos 2)
      (omega arith, omega arith, (omega arith, omega arith, tt)) (omega arith) (omega arith)
      (omega arith) (omega arith) (omega arith)

-- ===== src/Util.antt =====
-- stmm-input-btkb/src/util.cc: texts of numbers. A text is the list of its bytes. `to_string` and the
-- number that `istringstream` reads (`none` if it reads none, or other text is left behind it) are
-- parameters. A failed assertion is `none`.
pub mod Bounds
pub mod RoundTrip
pub mod Truncation
pub mod SignTexts
mod Tests
use stmm_input_bt.Base.{
  ℕ, zero, suc, Bool, true, false, not, ◌&&◌, ◌||◌, List, [], ◌∷◌, ◌++◌, Option, none, some, ℤ,
  length, drop, leb_ℤ, ltb, leb, ◌==◌, if◌then◌else◌, ◌>>=◌, ◌>>◌, assert,
}

abbrev pub comma : ℕ
comma = b','

-- `std::string::find` of a separator: what stands before it, and what behind it.
unfoldable pub starts_with : List ℕ → List ℕ → Bool
starts_with [] text = true
starts_with (s ∷ sep) [] = false
starts_with (s ∷ sep) (c ∷ text) = s == c && starts_with sep text

unfoldable pub split_at : List ℕ → List ℕ → Option (List ℕ × List ℕ)
unfolding starts_with
split_at sep [] = none
split_at sep (c ∷ text) =
    let later = (do (before, behind) ← split_at sep text; some (c ∷ before, behind)) in
    if starts_with sep (c ∷ text) then some ([], drop (length sep) (c ∷ text)) else later

-- The loop of `tokenizer`, with the tokens that it hands over.
unfoldable pub tokens : ℕ → List ℕ → List ℕ → List (List ℕ)
unfolding split_at
tokens fuel sep [] = []
tokens zero sep (c ∷ text) = []
tokens (suc fuel) sep (c ∷ text) = elim (split_at sep (c ∷ text)) [
  | none ↦ (c ∷ text) ∷ []
  | some (before, behind) ↦ before ∷ tokens fuel sep behind
]

unfoldable pub tokenizer : List ℕ → List ℕ → Option (List (List ℕ))
tokenizer text sep = do assert (ltb 0 (length sep)); some (tokens (length text) sep text)

-- `while (aArr.size() < nMinSize) { aArr.push_back(nDefaultValue); }`, on fuel.
unfoldable pub fill : ℕ → ℕ → ℤ → List ℤ → List ℤ
fill zero min_size default arr = arr
fill (suc fuel) min_size default arr =
    let more = fill fuel min_size default (arr ++ (default ∷ [])) in
    if ltb (length arr) min_size then more else arr

module _ (to_string : ℤ → List ℕ) (read_number : List ℕ → Option ℤ) where
  -- `vectorToString`
  unfoldable pub append_all : List ℤ → List ℕ → List ℕ
  append_all [] text = text
  append_all (n ∷ arr) text = append_all arr (text ++ (comma ∷ to_string n))

  unfoldable pub vector_to_string : List ℤ → List ℕ
  unfolding append_all
  vector_to_string [] = []
  vector_to_string (n ∷ arr) = append_all arr (to_string n)

  -- `strToNumber`, with both bounds.
  unfoldable pub str_to_number : List ℕ → ℤ → ℤ → Option ℤ
  str_to_number [] low high = none
  str_to_number (c ∷ text) low high = do
    n ← read_number (c ∷ text)
    if not (leb_ℤ low n) then none else if not (leb_ℤ n high) then none else some n

  -- The token handler of `stringToVector`. Its clamping has no effect behind `strToNumber`.
  unfoldable pub clamp : ℤ → ℤ → ℤ → ℤ
  clamp low high n = if not (leb_ℤ low n) then low else if not (leb_ℤ n high) then high else n

  unfoldable pub handle_token : ℕ → ℤ → ℤ → List ℤ → List ℕ → List ℤ
  unfolding str_to_number clamp
  handle_token max_size low high arr token = elim (str_to_number token low high) [
    | none ↦ arr
    | some n ↦ if ltb (length arr) max_size then arr ++ (clamp low high n ∷ []) else arr
  ]

  unfoldable pub handle_tokens : ℕ → ℤ → ℤ → List ℤ → List (List ℕ) → List ℤ
  unfolding handle_token
  handle_tokens max_size low high arr [] = arr
  handle_tokens max_size low high arr (token ∷ rest) =
      handle_tokens max_size low high (handle_token max_size low high arr token) rest

  -- `stringToVector`
  unfoldable pub string_to_vector : List ℕ → ℕ → ℕ → ℤ → ℤ → ℤ → Option (List ℤ)
  unfolding tokenizer handle_tokens fill
  string_to_vector text min_size max_size low high default = do
    assert (leb min_size max_size)
    assert (leb 1 max_size)
    assert (leb_ℤ low high)
    assert (leb_ℤ low default && leb_ℤ default high)
    all ← tokenizer text (comma ∷ [])
    some (fill min_size min_size default (handle_tokens max_size low high [] all))

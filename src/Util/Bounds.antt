-- ===== src/Util/Bounds.antt =====
-- util.cc, `stringToVector`: the size of the vector and the range of its values.
use stmm_input_bt.Base.{
  ℕ, zero, suc, ◌+◌, ◌≤◌, ◌≡◌, true, ◌&&◌, List, [], ◌∷◌, ◌++◌, Option, some, ℤ, ◌≤ℤ◌, leb_ℤ,
  length, length-append, arith, leb, Returns, Option-cases, inl, inr, max,
}
use stmm_input_bt.Util.{
  comma, tokenizer, tokens, fill, str_to_number, clamp, handle_token, handle_tokens,
  string_to_vector,
}

-- Each value is in the range.
abbrev pub AllIn : ℤ → ℤ → List ℤ → Type 0
AllIn low high [] = Unit {0}
AllIn low high (n ∷ arr) = (low ≤ℤ n) × (n ≤ℤ high) × AllIn low high arr

pub AllIn-append :
    (low high n : ℤ) (arr : List ℤ)
    → AllIn low high arr
    → low ≤ℤ n
    → n ≤ℤ high
    → AllIn low high (arr ++ (n ∷ []))
AllIn-append low high n [] h l u = (l, u, tt)
AllIn-append low high n (m ∷ arr) h l u = (h.0, h.1, AllIn-append low high n arr h.2 l u)

fill-AllIn :
    (fuel min_size : ℕ) (low high default : ℤ) (arr : List ℤ)
    → AllIn low high arr
    → low ≤ℤ default
    → default ≤ℤ high
    → AllIn low high (fill fuel min_size default arr)
unfolding fill
fill-AllIn zero min_size low high default arr h l u = h
fill-AllIn (suc fuel) min_size low high default arr h l u = ground (
  arith,
  AllIn-append low high default arr h l u,
  fill-AllIn fuel min_size low high default (arr ++ (default ∷ [])),
)

-- With enough fuel the vector has the minimal size, and it grows no further.
length-fill :
    (fuel min_size : ℕ) (default : ℤ) (arr : List ℤ)
    → min_size ≤ length arr + fuel
    → length (fill fuel min_size default arr) ≡ max min_size (length arr)
unfolding fill
length-fill zero min_size default arr h = omega arith
length-fill (suc fuel) min_size default arr h = ground (
  arith,
  length-fill fuel min_size default (arr ++ (default ∷ [])),
  length-append arr (default ∷ []),
)

module _ (to_string : ℤ → List ℕ) (read_number : List ℕ → Option ℤ) where
  str_to_number-range :
      (text : List ℕ) (low high n : ℤ)
      → str_to_number to_string read_number text low high ≡ some n
      → (low ≤ℤ n) × (n ≤ℤ high)
  unfolding str_to_number
  str_to_number-range [] low high n e = cc
  str_to_number-range (c ∷ text) low high n e = elim (Option-cases (read_number (c ∷ text))) [
    | inl nothing ↦ absurd (ground arith)
    | inr (m, read) ↦ ground arith
  ]

  -- The values that a token adds are in the range, and no more of them than the maximal size.
  handle_token-AllIn :
      (max_size : ℕ) (low high : ℤ) (arr : List ℤ) (token : List ℕ)
      → AllIn low high arr
      → length arr ≤ max_size
      → let arr' = handle_token to_string read_number max_size low high arr token in
        AllIn low high arr' × (length arr' ≤ max_size)
  unfolding handle_token clamp
  handle_token-AllIn max_size low high arr token h size =
      elim (Option-cases (str_to_number to_string read_number token low high)) [
        | inl nothing ↦ ground arith
        | inr (n, read) ↦
            let range = str_to_number-range token low high n read in
            ground
              (arith, AllIn-append low high n arr h range.0 range.1, length-append arr (n ∷ []))
      ]

  handle_tokens-AllIn :
      (max_size : ℕ) (low high : ℤ) (all : List (List ℕ)) (arr : List ℤ)
      → AllIn low high arr
      → length arr ≤ max_size
      → let arr' = handle_tokens to_string read_number max_size low high arr all in
        AllIn low high arr' × (length arr' ≤ max_size)
  unfolding handle_tokens
  handle_tokens-AllIn max_size low high [] arr h size = (h, size)
  handle_tokens-AllIn max_size low high (token ∷ rest) arr h size =
      let (h', size') = handle_token-AllIn max_size low high arr token h size in
      handle_tokens-AllIn max_size low high rest
        (handle_token to_string read_number max_size low high arr token) h' size'

  -- `stringToVector` of any text, whatever number is read from a token: if its arguments satisfy its
  -- assertions it returns, the vector has at least the minimal and at most the maximal size, and
  -- each value is in the range.
  pub string_to_vector_lem :
      (text : List ℕ) (min_size max_size : ℕ) (low high default : ℤ)
      → min_size ≤ max_size
      → 1 ≤ max_size
      → low ≤ℤ default
      → default ≤ℤ high
      → Returns
          (λ arr. AllIn low high arr × (min_size ≤ length arr) × (length arr ≤ max_size))
          (string_to_vector to_string read_number text min_size max_size low high default)
  unfolding string_to_vector tokenizer
  string_to_vector_lem text min_size max_size low high default sizes one l u =
      let all = tokens (length text) (comma ∷ []) text in
      let arr = handle_tokens to_string read_number max_size low high [] all in
      let (h, size) = handle_tokens-AllIn max_size low high all [] tt (omega arith) in
      let filled = length-fill min_size min_size default arr (omega arith) in
      let a : leb min_size max_size ≡ true = ground arith in
      let b : leb 1 max_size ≡ true = ground arith in
      let c : leb_ℤ low high ≡ true = ground arith in
      let d : (leb_ℤ low default && leb_ℤ default high) ≡ true = ground arith in
      rw (string_to_vector, a, b, c, d)
        (
          fill-AllIn min_size min_size low high default arr h l u,
          omega (arith, filled),
          omega (arith, filled, size, sizes),
        )

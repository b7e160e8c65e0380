-- ===== src/Util/Truncation.antt =====
-- util.cc: a vector that is longer than `stringToVector` takes.
use mathlib.Core.List.{append-nil, append_assoc}
use stmm_input_bt.Base.{
  ℕ, zero, suc, ◌+◌, ◌≤◌, ◌≡◌, ◌≢◌, refl, sym, ap, ◌∙◌, true, List, [], ◌∷◌, ◌++◌, Option, some, ℤ,
  map, take, leb, leb_ℤ, ◌≤ℤ◌, ◌&&◌, length, length-append, length-take, arith,
}
use stmm_input_bt.Util.{
  vector_to_string, tokenizer, handle_token, handle_tokens, string_to_vector, str_to_number,
}
use stmm_input_bt.Util.Bounds.{AllIn}
use stmm_input_bt.Util.RoundTrip.{
  HasNoComma, handle_token-room, str_to_number-read, tokens-vector_to_string, fill-full,
}

module _ (to_string : ℤ → List ℕ) (read_number : List ℕ → Option ℤ)
    (some_text : (n : ℤ) → to_string n ≢ []) (no_comma : (n : ℤ) → HasNoComma (to_string n))
    (reads : (n : ℤ) → read_number (to_string n) ≡ some n) where
  handle_token-full :
      (max_size : ℕ) (low high n : ℤ) (acc : List ℤ) (token : List ℕ)
      → str_to_number to_string read_number token low high ≡ some n
      → max_size ≤ length acc
      → handle_token to_string read_number max_size low high acc token ≡ acc
  unfolding handle_token
  handle_token-full max_size low high n acc token read full = ground arith

  handle_tokens-full :
      (max_size : ℕ) (low high : ℤ) (arr acc : List ℤ)
      → AllIn low high arr
      → max_size ≤ length acc
      → handle_tokens to_string read_number max_size low high acc (map to_string arr) ≡ acc
  unfolding handle_tokens
  handle_tokens-full max_size low high [] acc h full = refl
  handle_tokens-full max_size low high (n ∷ arr) acc h full =
      ap (λ more. handle_tokens to_string read_number max_size low high more (map to_string arr))
        (handle_token-full max_size low high n acc (to_string n)
          (str_to_number-read to_string read_number (to_string n) n low high (some_text n) (reads n)
            h.0 h.1)
          full)
      ∙ handle_tokens-full max_size low high arr acc h.2 full

  handle_tokens-take :
      (max_size : ℕ) (low high : ℤ) (arr acc : List ℤ) (room : ℕ)
      → AllIn low high arr
      → length acc + room ≡ max_size
      → handle_tokens to_string read_number max_size low high acc (map to_string arr)
        ≡ acc ++ take room arr
  unfolding handle_tokens
  handle_tokens-take max_size low high arr acc zero h e =
      handle_tokens-full max_size low high arr acc h (omega (arith, e)) ∙ sym (append-nil acc)
  handle_tokens-take max_size low high [] acc (suc room) h e = sym (append-nil acc)
  handle_tokens-take max_size low high (n ∷ arr) acc (suc room) h e =
      ap (λ more. handle_tokens to_string read_number max_size low high more (map to_string arr))
        (handle_token-room to_string read_number max_size low high n acc (to_string n)
          (str_to_number-read to_string read_number (to_string n) n low high (some_text n) (reads n)
            h.0 h.1)
          h.0 h.1 (omega (arith, e)))
      ∙ handle_tokens-take max_size low high arr (acc ++ (n ∷ [])) room h.2
          (omega (arith, e, length-append acc (n ∷ [])))
      ∙ append_assoc acc (n ∷ []) (take room arr)

  -- `stringToVector` of the text of a vector is its first `max_size` elements, if the vector's values and
  -- the default value are within the bounds and it has `min_size` elements.
  pub string_to_vector-truncates :
      (arr : List ℤ) (min_size max_size : ℕ) (low high default : ℤ)
      → AllIn low high arr
      → min_size ≤ length arr
      → min_size ≤ max_size
      → 1 ≤ max_size
      → low ≤ℤ default
      → default ≤ℤ high
      → string_to_vector to_string read_number
          (vector_to_string to_string read_number arr)
          min_size
          max_size
          low
          high
          default
        ≡ some (take max_size arr)
  unfolding string_to_vector tokenizer
  string_to_vector-truncates arr min_size max_size low high default h least most one l u =
      let a : leb min_size max_size ≡ true = ground arith in
      let b : leb 1 max_size ≡ true = ground arith in
      let c : leb_ℤ low high ≡ true = ground arith in
      let d : (leb_ℤ low default && leb_ℤ default high) ≡ true = ground arith in
      rw (
        string_to_vector,
        a,
        b,
        c,
        d,
        tokens-vector_to_string to_string read_number some_text no_comma reads arr,
        handle_tokens-take max_size low high arr [] max_size h (omega arith),
        fill-full min_size min_size default (take max_size arr)
            (omega (arith, length-take max_size arr, least, most)),
      )

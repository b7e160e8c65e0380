-- ===== src/Util/RoundTrip.antt =====
-- util.cc: `stringToVector` reads what `vectorToString` writes.
use mathlib.Core.List.{append-nil, append_assoc}
use stmm_input_bt.Base.{
  ℕ, zero, suc, ◌+◌, ◌≤◌, ◌<◌, ◌≡◌, ◌≢◌, refl, sym, ap, ◌∙◌, true, ◌&&◌, List, [], ◌∷◌, ◌++◌, map,
  Option, none, some, ℤ, ◌≤ℤ◌, leb_ℤ, length, length-append, arith, leb,
}
use stmm_input_bt.Util.{
  comma, starts_with, split_at, tokenizer, tokens, fill, append_all, vector_to_string,
  str_to_number, clamp, handle_token, handle_tokens, string_to_vector,
}
use stmm_input_bt.Util.Bounds.{AllIn}

-- The text has no comma.
abbrev pub HasNoComma : List ℕ → Type 0
HasNoComma [] = Unit {0}
HasNoComma (c ∷ text) = (c ≢ comma) × HasNoComma text

split_at-comma :
    (text rest : List ℕ)
    → HasNoComma text
    → split_at (comma ∷ []) (text ++ (comma ∷ rest)) ≡ some (text, rest)
unfolding split_at starts_with
split_at-comma [] rest h = refl
split_at-comma (c ∷ text) rest h = ground (arith, split_at-comma text rest h.1, h.0)

split_at-none : (text : List ℕ) → HasNoComma text → split_at (comma ∷ []) text ≡ none
unfolding split_at starts_with
split_at-none [] h = refl
split_at-none (c ∷ text) h = ground (arith, split_at-none text h.1, h.0)

tokens-last :
    (fuel : ℕ) (text : List ℕ)
    → HasNoComma text
    → text ≢ []
    → tokens (suc fuel) (comma ∷ []) text ≡ text ∷ []
unfolding tokens
tokens-last fuel [] h ne = absurd (ne refl)
tokens-last fuel (c ∷ text) h ne = rw (tokens, split_at-none (c ∷ text) h)

tokens-next :
    (fuel : ℕ) (text rest : List ℕ)
    → HasNoComma text
    → text ≢ []
    → tokens (suc fuel) (comma ∷ []) (text ++ (comma ∷ rest)) ≡ text ∷ tokens fuel (comma ∷ []) rest
unfolding tokens
tokens-next fuel [] rest h ne = absurd (ne refl)
tokens-next fuel (c ∷ text) rest h ne = rw (tokens, split_at-comma (c ∷ text) rest h)

pub fill-full :
    (fuel min_size : ℕ) (default : ℤ) (arr : List ℤ)
    → min_size ≤ length arr
    → fill fuel min_size default arr ≡ arr
unfolding fill
fill-full zero min_size default arr h = refl
fill-full (suc fuel) min_size default arr h = ground arith

module _ (to_string : ℤ → List ℕ) (read_number : List ℕ → Option ℤ) where
  pub str_to_number-read :
      (text : List ℕ) (n low high : ℤ)
      → text ≢ []
      → read_number text ≡ some n
      → low ≤ℤ n
      → n ≤ℤ high
      → str_to_number to_string read_number text low high ≡ some n
  unfolding str_to_number
  str_to_number-read [] n low high ne read l u = absurd (ne refl)
  str_to_number-read (c ∷ text) n low high ne read l u = ground arith

  pub handle_token-room :
      (max_size : ℕ) (low high n : ℤ) (acc : List ℤ) (token : List ℕ)
      → str_to_number to_string read_number token low high ≡ some n
      → low ≤ℤ n
      → n ≤ℤ high
      → length acc < max_size
      → handle_token to_string read_number max_size low high acc token ≡ acc ++ (n ∷ [])
  unfolding handle_token clamp
  handle_token-room max_size low high n acc token read l u room = ground arith

-- What is documented of the texts of numbers: they are not empty, have no comma, and are read back.
module _ (to_string : ℤ → List ℕ) (read_number : List ℕ → Option ℤ)
    (some_text : (n : ℤ) → to_string n ≢ []) (no_comma : (n : ℤ) → HasNoComma (to_string n))
    (reads : (n : ℤ) → read_number (to_string n) ≡ some n) where
  -- The rest of a vector's text.
  joined : List ℤ → List ℕ
  joined [] = []
  joined (n ∷ arr) = comma ∷ (to_string n ++ joined arr)

  append_all-joined :
      (arr : List ℤ) (text : List ℕ)
      → append_all to_string read_number arr text ≡ text ++ joined arr
  unfolding append_all joined
  append_all-joined [] text = sym (append-nil text)
  append_all-joined (n ∷ arr) text =
      append_all-joined arr (text ++ (comma ∷ to_string n))
      ∙ append_assoc text (comma ∷ to_string n) (joined arr)

  tokens-joined :
      (arr : List ℤ) (n : ℤ) (fuel : ℕ)
      → length arr < fuel
      → tokens fuel (comma ∷ []) (to_string n ++ joined arr) ≡ map to_string (n ∷ arr)
  unfolding joined
  tokens-joined arr n zero h = absurd (omega arith)
  tokens-joined [] n (suc fuel) h =
      rw (append-nil) (tokens-last fuel (to_string n) (no_comma n) (some_text n))
  tokens-joined (m ∷ arr) n (suc fuel) h =
      tokens-next fuel (to_string n) (to_string m ++ joined arr) (no_comma n) (some_text n)
      ∙ ap (λ ts. to_string n ∷ ts) (tokens-joined arr m fuel (omega arith))

  length-joined : (arr : List ℤ) → length arr ≤ length (joined arr)
  unfolding joined
  length-joined [] = omega arith
  length-joined (n ∷ arr) =
      omega (arith, length-joined arr, length-append (to_string n) (joined arr))

  handle_tokens-map :
      (max_size : ℕ) (low high : ℤ) (arr acc : List ℤ)
      → AllIn low high arr
      → length acc + length arr ≤ max_size
      → handle_tokens to_string read_number max_size low high acc (map to_string arr) ≡ acc ++ arr
  unfolding handle_tokens
  handle_tokens-map max_size low high [] acc h size = sym (append-nil acc)
  handle_tokens-map max_size low high (n ∷ arr) acc h size =
      ap (λ more. handle_tokens to_string read_number max_size low high more (map to_string arr))
        (handle_token-room to_string read_number max_size low high n acc (to_string n)
          (str_to_number-read to_string read_number (to_string n) n low high (some_text n) (reads n)
            h.0 h.1)
          h.0 h.1 (omega (arith, size)))
      ∙ handle_tokens-map max_size low high arr (acc ++ (n ∷ [])) h.2
          (omega (arith, size, length-append acc (n ∷ [])))
      ∙ append_assoc acc (n ∷ []) arr

  long :
      (arr : List ℤ) (n : ℤ) (text : List ℕ) → text ≢ [] → length arr < length (text ++ joined arr)
  long arr n [] ne = absurd (ne refl)
  long arr n (c ∷ text) ne = omega (arith, length-joined arr, length-append text (joined arr))

  pub tokens-vector_to_string :
      (arr : List ℤ)
      → let text = vector_to_string to_string read_number arr in
        tokens (length text) (comma ∷ []) text ≡ map to_string arr
  unfolding vector_to_string tokens
  tokens-vector_to_string [] = refl
  tokens-vector_to_string (n ∷ arr) = rw (append_all-joined arr (to_string n)) (
      tokens-joined arr n (length (to_string n ++ joined arr))
        (long arr n (to_string n) (some_text n)))

  -- `stringToVector` of the text that `vectorToString` makes of a vector is the vector, if its size
  -- and its values, and the default value, are within the bounds.
  pub string_to_vector-vector_to_string :
      (arr : List ℤ) (min_size max_size : ℕ) (low high default : ℤ)
      → AllIn low high arr
      → min_size ≤ length arr
      → length arr ≤ max_size
      → 1 ≤ max_size
      → low ≤ℤ default
      → default ≤ℤ high
      → string_to_vector to_string read_number
          (vector_to_string to_string read_number arr)
          min_size
          max_size
          low
          high
          default
        ≡ some arr
  unfolding string_to_vector tokenizer
  string_to_vector-vector_to_string arr min_size max_size low high default h least most one l u =
      let a : leb min_size max_size ≡ true = ground arith in
      let b : leb 1 max_size ≡ true = ground arith in
      let c : leb_ℤ low high ≡ true = ground arith in
      let d : (leb_ℤ low default && leb_ℤ default high) ≡ true = ground arith in
      rw (
        string_to_vector,
        a,
        b,
        c,
        d,
        tokens-vector_to_string arr,
        handle_tokens-map max_size low high arr [] h (omega (arith, most)),
        fill-full min_size min_size default arr least,
      )

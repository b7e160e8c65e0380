-- ===== src/InputStrings/RoundTrip.antt =====
-- inputstrings.h: a key's name determines the key, and a name's key has that name.
use Prim.Native.String.{String}
use text.Mathlib.Text.{◌==◌ as str_eq}
use text.Mathlib.TextEquality.{eq_iff}
use stmm_input_bt.Base.{
  ℕ, Bool, true, false, ◌&&◌, ◌≡◌, ◌≢◌, refl, sym, ap, subst, ◌∙◌, List, [], ◌∷◌, Option, none,
  some, ◌==◌, ==_iff, arith, Bool-cases, Option-cases, inl, inr,
}
use stmm_input_bt.InputStrings.{
  InputStrings, create_strings, add_keys, add_key, find_key, find_text, value_of, get_key_string,
  get_string_key,
}

-- Every entry of a map passes a test.
unfoldable pub all : (ℕ → String → Bool) → List (ℕ × String) → Bool
all p [] = true
all p ((key, text) ∷ rest) = p key text && all p rest

pub all-find_key :
    (p : ℕ → String → Bool) (m : List (ℕ × String)) (key : ℕ) (text : String)
    → all p m ≡ true
    → find_key key m ≡ some text
    → p key text ≡ true
unfolding all find_key
all-find_key p [] key text h e = cc
all-find_key p ((other, t) ∷ rest) key text h e = elim (Bool-cases (other == key)) [
  | inl here ↦
      let same_key : other ≡ key = (==_iff other key).0 here in
      let same_text : some t ≡ some text = ground arith in
      let passed : p other t ≡ true = ground arith in cc
  | inr there ↦ all-find_key p rest key text (ground arith) (ground arith)
]

all-find_text :
    (p : ℕ → String → Bool) (m : List (ℕ × String)) (key : ℕ) (text : String)
    → all p m ≡ true
    → find_text text m ≡ some key
    → p key text ≡ true
unfolding all find_text
all-find_text p [] key text h e = cc
all-find_text p ((other, t) ∷ rest) key text h e = elim (Bool-cases (str_eq t text)) [
  | inl here ↦
      let same_text : t ≡ text = (eq_iff t text).0 here in
      let same_key : some other ≡ some key = ground arith in
      let passed : p other t ≡ true = ground arith in cc
  | inr there ↦ all-find_text p rest key text (ground arith) (ground arith)
]

-- The two searches of the map agree on an entry.
agrees : List (ℕ × String) → ℕ → String → Bool
agrees m key text =
    elim (find_text text m) [ none ↦ false | some other ↦ other == key ]
    && elim (find_key key m) [ none ↦ false | some other ↦ str_eq other text ]

agree : Option InputStrings → Bool
agree none = false
agree (some s) = all (agrees s.key_string_map) s.key_string_map

created-agree : agree create_strings ≡ true
unfolding agree all agrees create_strings add_keys add_key value_of find_key find_text
created-agree = refl

agree-all :
    (s : InputStrings)
    → create_strings ≡ some s
    → all (agrees s.key_string_map) s.key_string_map ≡ true
unfolding agree
agree-all s e = ap agree (sym e) ∙ created-agree

agrees-parts :
    (m : List (ℕ × String)) (key : ℕ) (text : String)
    → agrees m key text ≡ true
    → (find_text text m ≡ some key) × (find_key key m ≡ some text)
unfolding agrees
agrees-parts m key text h = elim (Option-cases (find_text text m)) [
  | inl nothing ↦ absurd (ground arith)
  | inr (k, by_text) ↦ elim (Option-cases (find_key key m)) [
    | inl nothing ↦ absurd (ground arith)
    | inr (t, by_key) ↦
        let same_key : k ≡ key = ground arith in
        let same_text : t ≡ text = (eq_iff t text).0 (ground arith) in
        (by_text ∙ ap some same_key, by_key ∙ ap some same_text)
  ]
]

-- A key whose name is not the empty text is the key that the name is looked up as.
pub get_string_key-get_key_string :
    (s : InputStrings) (key : ℕ) (text : String)
    → create_strings ≡ some s
    → get_key_string s key ≡ text
    → text ≢ ""
    → get_string_key s text ≡ (true, key)
unfolding get_key_string get_string_key
get_string_key-get_key_string s key text e named ne =
    elim (Option-cases (find_key key s.key_string_map)) [
      | inl nothing ↦
          let empty : text ≡ "" = sym named ∙ (rw (get_key_string, nothing)) in absurd (ne empty)
      | inr (t, found) ↦
          let same : t ≡ text = sym (sym named ∙ (rw (get_key_string, found))) in
          let ok : agrees s.key_string_map key t ≡ true =
            all-find_key (agrees s.key_string_map) s.key_string_map key t (agree-all s e) found in
          let by_text : find_text text s.key_string_map ≡ some key =
            subst (λ u. find_text u s.key_string_map ≡ some key) same
              (agrees-parts s.key_string_map key t ok).0 in
          rw (get_string_key, by_text)
    ]

-- A text that is found as the name of a key is that key's name.
pub get_key_string-get_string_key :
    (s : InputStrings) (key : ℕ) (text : String)
    → create_strings ≡ some s
    → get_string_key s text ≡ (true, key)
    → get_key_string s key ≡ text
unfolding get_key_string get_string_key
get_key_string-get_string_key s key text e found =
    elim (Option-cases (find_text text s.key_string_map)) [
      | inl nothing ↦ absurd (ground arith)
      | inr (k, at) ↦
          let same : k ≡ key = ground arith in
          let ok : agrees s.key_string_map k text ≡ true =
            all-find_text (agrees s.key_string_map) s.key_string_map k text (agree-all s e) at in
          let by_key : find_key key s.key_string_map ≡ some text =
            subst (λ u. find_key u s.key_string_map ≡ some text) same
              (agrees-parts s.key_string_map k text ok).1 in
          rw (get_key_string, by_key)
    ]

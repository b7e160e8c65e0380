-- ===== src/InputStrings.antt =====
-- stmm-input-btkb/src/inputstrings.h and inputstrings.cc: the names of the hardware keys. The
-- unordered map is a list of its pairs, in the order in which they were added.
mod Codes
mod Names
pub mod RoundTrip
pub mod Tests
use Prim.Native.String.{String}
use text.Mathlib.Text.{◌==◌ as str_eq}
use stmm_input_bt.Base.{
  ℕ, Bool, true, false, List, [], ◌∷◌, ◌++◌, Option, none, some, ◌==◌, if◌then◌else◌, ◌>>=◌,
}
use stmm_input_bt.InputStrings.Codes.{hardware_keys}
use stmm_input_bt.InputStrings.Names.{added_keys}

pub record InputStrings : Type 0 where
  pub key_string_map : List (ℕ × String)
  pub all_keys : List ℕ
  pub initial_add : Bool

-- The value of an enumerator.
unfoldable pub value_of : String → List (String × ℕ) → Option ℕ
value_of name [] = none
value_of name ((other, value) ∷ rest) =
    let later = value_of name rest in if str_eq other name then some value else later

-- `find` in the map.
unfoldable pub find_key : ℕ → List (ℕ × String) → Option String
find_key key [] = none
find_key key ((other, text) ∷ rest) =
    let later = find_key key rest in if other == key then some text else later

-- `find_if` by the text.
unfoldable pub find_text : String → List (ℕ × String) → Option ℕ
find_text text [] = none
find_text text ((key, other) ∷ rest) =
    let later = find_text text rest in if str_eq other text then some key else later

-- `addKey`, where `emplace` keeps the entry of a key that is there already.
unfoldable pub add_key : InputStrings → ℕ → String → InputStrings
unfolding find_key
add_key s key text =
    if s.initial_add
    then elim (find_key key s.key_string_map) [
      | some there ↦ s
      | none ↦ record s { key_string_map = s.key_string_map ++ ((key, text) ∷ []) }
    ]
    else record s { all_keys = s.all_keys ++ (key ∷ []) }

-- The calls of `addKey`, one after another. An enumerator that is not declared does not compile.
unfoldable pub add_keys : InputStrings → List (String × String) → Option InputStrings
unfolding value_of
add_keys s [] = some s
add_keys s ((name, text) ∷ rest) = do
  key ← value_of name hardware_keys
  add_keys (add_key s key text) rest

-- `initKeyMap`
abbrev pub init_key_map : InputStrings → Option InputStrings
init_key_map s = add_keys s added_keys

-- The constructor.
unfoldable pub create_strings : Option InputStrings
create_strings = do
  s ← init_key_map (record { key_string_map = []; all_keys = []; initial_add = true })
  some (record s { initial_add = false })

unfoldable pub get_key_string : InputStrings → ℕ → String
unfolding find_key
get_key_string s key = elim (find_key key s.key_string_map) [ none ↦ "" | some text ↦ text ]

unfoldable pub get_string_key : InputStrings → String → Bool × ℕ
unfolding find_text
get_string_key s text = elim (find_text text s.key_string_map) [
  | none ↦ (false, 0)
  | some key ↦ (true, key)
]

-- `getAllKeys`, with the object after it.
unfoldable pub get_all_keys : InputStrings → Option (InputStrings × List ℕ)
get_all_keys s = elim s.all_keys [
  | [] ↦ do s' ← init_key_map s; some (s', s'.all_keys)
  | key ∷ keys ↦ some (s, s.all_keys)
]

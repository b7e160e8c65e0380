-- ===== src/InputStrings/Tests.antt =====
-- The object that the constructor makes, and a key of it.
use Prim.Native.String.{String}
use stmm_input_bt.Base.{
  ℕ, Bool, true, false, ◌≡◌, ◌≢◌, refl, List, [], ◌∷◌, Option, none, some, is_some, ◌==◌, ◌&&◌,
}
use stmm_input_bt.InputStrings.{
  InputStrings, create_strings, add_keys, add_key, find_key, find_text, value_of, get_key_string,
  get_string_key, get_all_keys,
}
use stmm_input_bt.InputStrings.Codes.{hardware_keys}
use stmm_input_bt.InputStrings.RoundTrip.{
  get_string_key-get_key_string, get_key_string-get_string_key,
}

abbrev nothing : InputStrings
nothing = record { key_string_map = []; all_keys = []; initial_add = false }

unfoldable pub or_nothing : Option InputStrings → InputStrings
or_nothing none = nothing
or_nothing (some s) = s

or_nothing_lem : (o : Option InputStrings) → is_some o ≡ true → o ≡ some (or_nothing o)
unfolding or_nothing
or_nothing_lem none h = cc
or_nothing_lem (some s) h = refl

unfoldable pub strings : InputStrings
strings = or_nothing create_strings

create_strings-some : is_some create_strings ≡ true
unfolding create_strings add_keys add_key value_of find_key
create_strings-some = refl

pub strings-created : create_strings ≡ some strings
unfolding strings
strings-created = or_nothing_lem create_strings create_strings-some

-- `getAllKeys` lists the values of all enumerators.
lists : List (String × ℕ) → List ℕ → Bool
lists [] [] = true
lists ((name, value) ∷ rest) (key ∷ keys) = value == key && lists rest keys
lists _ _ = false

lists_all : Option (InputStrings × List ℕ) → Bool
unfolding lists
lists_all none = false
lists_all (some (s, keys)) = lists hardware_keys keys

all_keys_of_strings : lists_all (get_all_keys strings) ≡ true
unfolding lists_all get_all_keys strings or_nothing create_strings add_keys add_key value_of
    find_key
all_keys_of_strings = refl

escape-name : get_key_string strings 1 ≡ "ESC"
unfolding get_key_string strings or_nothing create_strings add_keys add_key value_of find_key
escape-name = refl

escape-key : get_string_key strings "ESC" ≡ (true, 1)
unfolding get_string_key strings or_nothing create_strings add_keys add_key value_of find_key
    find_text
escape-key = refl

escape-ne : ◌≢◌ {A = String} "ESC" ""
escape-ne e = cc

get_string_key-get_key_string_example : get_string_key strings "ESC" ≡ (true, 1)
get_string_key-get_key_string_example =
    get_string_key-get_key_string strings 1 "ESC" strings-created escape-name escape-ne

get_key_string-get_string_key_example : get_key_string strings 1 ≡ "ESC"
get_key_string-get_string_key_example =
    get_key_string-get_string_key strings 1 "ESC" strings-created escape-key

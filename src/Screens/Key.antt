-- ===== src/Screens/Key.antt =====
-- keyscreen.cc: the list of keys, and the key that the user chooses for a cell.
use Prim.Native.String.{String}
use text.Mathlib.Text.{◌==◌ as str_eq}
use stmm_input_bt.Base.{
  ℕ, Bool, true, false, not, ◌&&◌, List, [], ◌∷◌, Option, none, some, get_elem?, map, ◌==◌,
  if◌then◌else◌, ◌>>=◌, ◌>>◌, assert,
}
use stmm_input_bt.InputStrings.{InputStrings, get_key_string, get_string_key, get_all_keys}
use stmm_input_bt.Grid.State.{Grid}
use stmm_input_bt.Grid.Edit.{set_key}

-- A row of the list of keys.
pub record KeyRow : Type 0 where
  pub name : String
  pub hk : ℕ

-- `entry` is the text of `m_p0EntryKey`, `invalid` whether the label says so.
pub record KeyScreen : Type 0 where
  pub key_rows : List KeyRow
  pub path : ℕ
  pub column : ℕ
  pub row : ℕ
  pub entry : String
  pub invalid : Bool

abbrev pub key_row : InputStrings → ℕ → KeyRow
key_row strings key = record { name = get_key_string strings key; hk = key }

-- The rows that `init` appends. That `getAllKeys` fills its list changes no name.
unfoldable pub init_rows : InputStrings → Option (List KeyRow)
init_rows strings = do (filled, keys) ← get_all_keys strings; some (map (key_row strings) keys)

-- `findKeyRow`
unfoldable pub find_key_row : ℕ → List KeyRow → Option KeyRow
find_key_row key [] = none
find_key_row key (row ∷ rows) =
    let later = find_key_row key rows in if row.hk == key then some row else later

-- `changeTo`, which always returns true.
unfoldable pub change_to : InputStrings → ℕ → ℕ → ℕ → ℕ → KeyScreen → Option KeyScreen
unfolding find_key_row
change_to strings key column row path s = do
  assert (not (str_eq (get_key_string strings key) ""))
  found ← find_key_row key s.key_rows
  some (record s { path = path; column = column; row = row; entry = found.name; invalid = false })

-- `onKeySelectionChanged`, with the row that is selected if there is one.
unfoldable pub on_key_selection_changed : Option ℕ → KeyScreen → Option KeyScreen
on_key_selection_changed none s = some s
on_key_selection_changed (some i) s = do
  row ← get_elem? s.key_rows i
  some (record s { entry = row.name })

-- `onErrorOneSecond`
abbrev pub on_error_one_second : KeyScreen → KeyScreen
on_error_one_second s = record s { invalid = false }

-- `onButtonAnswerOk`, with whether the main screen is back.
unfoldable pub on_button_answer_ok :
    InputStrings → KeyScreen → Grid → Option (KeyScreen × Grid × Bool)
on_button_answer_ok strings s g =
    let (found, key) = get_string_key strings s.entry in
    let changed = (do g' ← set_key strings key s.column s.row s.path g; some (s, g', true)) in
    if not found then some (record s { invalid = true }, g, false) else changed

-- `onKeyPressed`: whether the entry has the focus, whether the key is Return, and whether a modifier is
-- held. The last result is whether the event is consumed.
unfoldable pub on_key_pressed :
    InputStrings → Bool → Bool → Bool → KeyScreen → Grid → Option (KeyScreen × Grid × Bool × Bool)
unfolding on_button_answer_ok
on_key_pressed strings focused is_return modified s g =
    let answered = (do
      (s', g', closed) ← on_button_answer_ok strings s g
      some (s', g', closed, true)) in
    if focused && is_return && not modified then answered else some (s, g, false, false)

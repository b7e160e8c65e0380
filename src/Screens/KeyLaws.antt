-- ===== src/Screens/KeyLaws.antt =====
-- keyscreen.cc with btkbwindow.cc: a key is chosen for a cell, from the activated row to the changed grid.
use Prim.Native.String.{String}
use text.Mathlib.Text.{◌==◌ as str_eq}
use text.Mathlib.TextEquality.{eq_iff}
use stmm_input_bt.Base.{
  ℕ, ◌<◌, ◌≡◌, ◌≢◌, refl, sym, ap, subst, ◌∙◌, Bool, true, false, not, ◌&&◌, List, Option, none,
  some, length, get_elem?, get_elem?_total, get_elem?-set_origin, set, is_some, arith, Returns,
  Option-cases, Bool-cases, inl, inr,
}
use stmm_input_bt.InputStrings.{
  InputStrings, create_strings, add_keys, add_key, find_key, find_text, value_of, get_key_string,
  get_string_key, get_all_keys,
}
use stmm_input_bt.InputStrings.RoundTrip.{all, all-find_key, get_key_string-get_string_key}
use stmm_input_bt.Grid.State.{Grid}
use stmm_input_bt.Grid.Edit.{cell_idx, write_at, set_key, on_cell_name_activated}
use stmm_input_bt.Grid.Wellformed.{IsGrid, IsShown}
use stmm_input_bt.Grid.EditCell.{activated, cell_row-parts, set_key_lem}
use stmm_input_bt.Screens.Key.{
  KeyRow, KeyScreen, init_rows, find_key_row, change_to, on_button_answer_ok,
}

-- Every key with a name has a row, and no key has the empty text as its name.
has_row : List KeyRow → ℕ → String → Bool
has_row rows key text = is_some (find_key_row key rows)

is_complete : InputStrings → Bool
is_complete s = elim (init_rows s) [
  | none ↦ false
  | some rows ↦ all (has_row rows) s.key_string_map && not (is_some (find_text "" s.key_string_map))
]

complete : Option InputStrings → Bool
complete none = false
complete (some s) = is_complete s

created-complete : complete create_strings ≡ true
unfolding complete is_complete has_row all create_strings add_keys add_key value_of find_key
    find_text init_rows find_key_row get_all_keys get_key_string
created-complete = refl

complete-parts :
    (s : InputStrings) (rows : List KeyRow)
    → create_strings ≡ some s
    → init_rows s ≡ some rows
    → (all (has_row rows) s.key_string_map ≡ true) × (find_text "" s.key_string_map ≡ none)
unfolding complete is_complete
complete-parts s rows e made =
    let h : complete (some s) ≡ true = ap complete (sym e) ∙ created-complete in
    elim (Option-cases (find_text "" s.key_string_map)) [
      | inl nothing ↦ (ground (arith, made), nothing)
      | inr (key, there) ↦ absurd (ground (arith, made))
    ]

-- The keys have names.
abbrev pub AreNamed : InputStrings → List ℕ → Type 0
AreNamed strings keys = (i key : ℕ) → get_elem? keys i ≡ some key → get_key_string strings key ≢ ""

-- A key with a name is found in the list.
named-row :
    (s : InputStrings) (rows : List KeyRow) (key : ℕ)
    → create_strings ≡ some s
    → init_rows s ≡ some rows
    → get_key_string s key ≢ ""
    → is_some (find_key_row key rows) ≡ true
unfolding get_key_string has_row
named-row s rows key e made named = elim (Option-cases (find_key key s.key_string_map)) [
  | inl nothing ↦ absurd (named (rw (get_key_string, nothing) refl))
  | inr (text, there) ↦
      all-find_key (has_row rows) s.key_string_map key text (complete-parts s rows e made).0 there
]

-- The screen as it opens.
abbrev opened : ℕ → ℕ → ℕ → String → KeyScreen → KeyScreen
opened column row path name screen = record screen {
  path = path;
  column = column;
  row = row;
  entry = name;
  invalid = false;
}

-- `changeTo` of a key with a name.
change_to-opened :
    (s : InputStrings) (key column row path : ℕ) (screen : KeyScreen)
    → create_strings ≡ some s
    → init_rows s ≡ some screen.key_rows
    → get_key_string s key ≢ ""
    → (name : String) × (change_to s key column row path screen
        ≡ some (opened column row path name screen))
unfolding change_to
change_to-opened s key column row path screen e made named =
    let text = get_key_string s key in
    let is_named : str_eq text "" ≡ false = elim (Bool-cases (str_eq text "")) [
      | inl empty ↦ absurd (named ((eq_iff text "").0 empty))
      | inr other ↦ other
    ] in
    elim (Option-cases (find_key_row key screen.key_rows)) [
      | inl missing ↦
          let there = named-row s screen.key_rows key e made named in absurd (ground arith)
      | inr (row', found) ↦ (row'.name, rw (is_named, found) refl)
    ]

set_key-keys :
    (strings : InputStrings) (key column row path : ℕ) (g g' : Grid)
    → set_key strings key column row path g ≡ some g'
    → g'.edit_hk ≡ set g.edit_hk (cell_idx (length g.edit_columns_weight) column row) key
unfolding set_key write_at
set_key-keys strings key column row path g g' e = ground arith

set-AreNamed :
    (strings : InputStrings) (keys : List ℕ) (idx key : ℕ)
    → AreNamed strings keys
    → get_key_string strings key ≢ ""
    → AreNamed strings (set keys idx key)
set-AreNamed strings keys idx key h named i k at = elim (get_elem?-set_origin keys idx i key k at) [
  | inl (here, same) ↦ rw same named
  | inr old ↦ h i k old
]

-- A text that is found is not the empty one.
found-named :
    (s : InputStrings) (rows : List KeyRow) (text : String) (key : ℕ)
    → create_strings ≡ some s
    → init_rows s ≡ some rows
    → get_string_key s text ≡ (true, key)
    → get_key_string s key ≢ ""
unfolding get_string_key
found-named s rows text key e made found empty =
    let same : text ≡ "" = sym (get_key_string-get_string_key s key text e found) ∙ empty in
    let none_named : find_text "" s.key_string_map ≡ none = (complete-parts s rows e made).1 in
    let missing : get_string_key s text ≡ (false, 0) =
      ap (get_string_key s) same ∙ (rw (get_string_key, none_named) refl) in
    let clash : true ≡ false = ap (λ r. r.0) (sym found ∙ missing) in absurd (ground arith)

-- The user typed `text` for the cell at `idx`: the invariants hold; if the screen is left, the cell has
-- the key of that name, and else the grid is as it was.
abbrev pub Answered : InputStrings → Grid → ℕ → String → KeyScreen × Grid × Bool → Type 0
Answered strings g idx text r =
    IsGrid r.1
    × IsShown r.1
    × AreNamed strings r.1.edit_hk
    × (r.2 ≡ true
        → (key : ℕ) × (get_elem? r.1.edit_hk idx ≡ some key) × (get_key_string strings key ≡ text))
    × (r.2 ≡ false → r.1 ≡ g)

-- What is asked of the key that the name stands for.
abbrev Chosen : InputStrings → ℕ → Grid → ℕ → Grid → Type 0
Chosen strings key g idx g' = IsGrid g' × IsShown g' × (get_elem? g'.edit_hk idx ≡ some key)

answer-Answered :
    (s : InputStrings) (screen : KeyScreen) (g : Grid)
    → create_strings ≡ some s
    → init_rows s ≡ some screen.key_rows
    → IsGrid g
    → IsShown g
    → AreNamed s g.edit_hk
    → ((key : ℕ)
        → Returns
            (Chosen s key g (cell_idx g.tot_columns screen.column screen.row))
            (set_key s key screen.column screen.row screen.path g))
    → Returns
        (Answered s g (cell_idx g.tot_columns screen.column screen.row) screen.entry)
        (on_button_answer_ok s screen g)
unfolding on_button_answer_ok
answer-Answered s screen g e made h shown named sets =
    let idx = cell_idx g.tot_columns screen.column screen.row in
    let answer = get_string_key s screen.entry in
    let key = answer.1 in
    elim (Bool-cases answer.0) [
      | inr unknown ↦
          rw (on_button_answer_ok, unknown)
            (h, shown, named, (λ e'. absurd (ground arith)), (λ e'. refl))
      | inl known ↦
          let found : get_string_key s screen.entry ≡ (true, key) = ap (λ b. (b, key)) known in
          let chosen = sets key in
          elim (Option-cases (set_key s key screen.column screen.row screen.path g)) [
            | inl stopped ↦ absurd (subst (Returns (Chosen s key g idx)) stopped chosen)
            | inr (g', done) ↦
                let now : Chosen s key g idx g' =
                  subst (Returns (Chosen s key g idx)) done chosen in
                let keys : AreNamed s g'.edit_hk =
                  subst (AreNamed s)
                    (sym (set_key-keys s key screen.column screen.row screen.path g g' done))
                    (set-AreNamed s g.edit_hk
                      (cell_idx (length g.edit_columns_weight) screen.column screen.row) key named
                      (found-named s screen.key_rows screen.entry key e made found)) in
                rw (on_button_answer_ok, known, done)
                  (
                    now.0,
                    now.1,
                    keys,
                    (λ e'. (key, now.2, get_key_string-get_string_key s key screen.entry e found)),
                    (λ e'. absurd (ground arith)),
                  )
          ]
    ]

abbrev Sets : InputStrings → ℕ → ℕ → Grid → Option (ℕ × ℕ × ℕ) → Type 0
Sets s key path g m =
    Returns
      (λ (r : ℕ × ℕ × ℕ).
        Returns (Chosen s key g (cell_idx g.tot_columns r.1 r.2)) (set_key s key r.1 r.2 path g))
      m

-- The user activates a row of the list of cells of a well-formed grid that the list shows, where the keys
-- of all cells have names; the screen opens, and the user enters any text and confirms: no assertion
-- fails, and the grid is again well-formed and shown with keys that have names. If the text is the name
-- of a key then the screen is left and the cell has this key, and else the grid is as it was.
pub key_screen_lem :
    (s : InputStrings) (screen : KeyScreen) (path : ℕ) (text : String) (g : Grid)
    → create_strings ≡ some s
    → init_rows s ≡ some screen.key_rows
    → IsGrid g
    → IsShown g
    → AreNamed s g.edit_hk
    → path < length g.cell_rows
    → Returns
        (λ (r : ℕ × ℕ × ℕ).
          Returns
            (λ opened.
              Returns
                (Answered s g (cell_idx g.tot_columns r.1 r.2) text)
                (on_button_answer_ok s (record opened { entry = text }) g))
            (change_to s r.0 r.1 r.2 path screen))
        (on_cell_name_activated path g)
key_screen_lem s screen path text g e made h shown named inside =
    let (cell, at) = get_elem?_total g.cell_rows path inside in
    let is_activated = activated path cell g h shown at in
    let cell_key = (cell_row-parts g cell (shown path cell at).1.2).1 in
    let (name, opens) =
      change_to-opened s cell.hardware_key cell.x cell.y path screen e made
        (named (cell_idx g.tot_columns cell.x cell.y) cell.hardware_key cell_key) in
    rw (is_activated, opens)
      (answer-Answered s (opened cell.x cell.y path text screen) g e made h shown named
        (λ key. subst (Sets s key path g) is_activated (set_key_lem s key path g h shown inside)))

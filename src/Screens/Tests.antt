-- ===== src/Screens/Tests.antt =====
-- The screens over a small grid, with the names of all keys.
use Prim.Native.String.{String}
use stmm_input_bt.Base.{
  ℕ, zero, suc, ◌≡◌, ◌≢◌, refl, sym, subst, ◌∙◌, true, false, List, [], ◌∷◌, Option, none, some,
  is_some, ℤ, pos, get_elem?, arith, inl, inr, Returns,
}
use stmm_input_bt.InputStrings.{
  create_strings, add_keys, add_key, find_key, value_of, get_key_string, get_all_keys,
}
use stmm_input_bt.InputStrings.Tests.{strings, or_nothing, strings-created}
use stmm_input_bt.Grid.State.{Grid}
use stmm_input_bt.Grid.Edit.{
  cell_idx, recreate_weights_list, on_cell_name_activated, on_weight_activated,
}
use stmm_input_bt.Grid.Wellformed.{IsGrid}
use stmm_input_bt.Grid.Tests.{small, small-IsGrid, small-IsShown}
use stmm_input_bt.Screens.Key.{KeyRow, KeyScreen, init_rows}
use stmm_input_bt.Screens.Key
use stmm_input_bt.Screens.KeyLaws.{AreNamed, Answered, key_screen_lem}
use stmm_input_bt.BdAddr.{empty_addr}
use stmm_input_bt.KeyServers.{ServerInfo, KeyServers, no_error, unknown}
use stmm_input_bt.Screens.Staging.{Staging}
use stmm_input_bt.Screens.StagingLaws.{
  Deed, selects, chooses, opens, types, confirms, act_all, IsStaged, act_all-IsStaged,
}
use stmm_input_bt.Screens.Weight.{WeightScreen, on_spin_weight_changed}
use stmm_input_bt.Screens.Weight
use stmm_input_bt.Screens.WeightLaws.{weights_of, rows_of, AreWeightsShown, weight_screen_lem}

abbrev shown : Grid
shown = recreate_weights_list small

shown-IsGrid : IsGrid shown
shown-IsGrid = record {
  columns = small-IsGrid.columns;
  rows = small-IsGrid.rows;
  column_weights = small-IsGrid.column_weights;
  row_weights = small-IsGrid.row_weights;
  fits = small-IsGrid.fits;
  same_size = small-IsGrid.same_size;
  exit_position = small-IsGrid.exit_position;
  exit_column = small-IsGrid.exit_column;
  exit_row = small-IsGrid.exit_row;
}

abbrev weight_screen : WeightScreen
weight_screen = record {
  path = 0;
  is_column = true;
  col_row = 0;
  old_weight = pos 1;
  weight = pos 1;
  min_weight = pos 1;
  max_weight = pos 1000;
}

weight_screen_lem_example :
    Returns
      (λ (r : ℤ × ℕ).
        Returns
          (λ opened.
            Returns
              (λ g'.
                IsGrid g'
                × AreWeightsShown g'
                × (get_elem? (weights_of true g') r.1 ≡ some (pos 700)))
              (Weight.on_button_answer_ok (on_spin_weight_changed (pos 700) opened) shown))
          (Weight.change_to r.0 true r.1 1 weight_screen))
      (on_weight_activated 1 (rows_of true shown) (weights_of true shown))
weight_screen_lem_example =
    weight_screen_lem true 1 (pos 700) weight_screen shown shown-IsGrid (refl, refl) (omega arith)
      refl refl (omega arith) (omega arith)

or_no_rows : Option (List KeyRow) → List KeyRow
or_no_rows none = []
or_no_rows (some rows) = rows

or_no_rows_lem : (o : Option (List KeyRow)) → is_some o ≡ true → o ≡ some (or_no_rows o)
unfolding or_no_rows
or_no_rows_lem none h = cc
or_no_rows_lem (some rows) h = refl

all_rows-some : is_some (init_rows strings) ≡ true
unfolding init_rows get_all_keys strings or_nothing create_strings add_keys add_key value_of
    find_key
all_rows-some = refl

abbrev key_screen : KeyScreen
key_screen = record {
  key_rows = or_no_rows (init_rows strings);
  path = 0;
  column = 0;
  row = 0;
  entry = "";
  invalid = false;
}

name-of_a : get_key_string strings 30 ≡ "A"
unfolding get_key_string strings or_nothing create_strings add_keys add_key value_of find_key
name-of_a = refl

name-of_none : get_key_string strings 0 ≡ "NULL"
unfolding get_key_string strings or_nothing create_strings add_keys add_key value_of find_key
name-of_none = refl

a-ne : ◌≢◌ {A = String} "A" ""
a-ne e = cc

null-ne : ◌≢◌ {A = String} "NULL" ""
null-ne e = cc

small-AreNamed : AreNamed strings small.edit_hk
small-AreNamed zero key at =
    let same : 30 ≡ key = ground arith in
    subst (λ k. get_key_string strings k ≢ "") same (λ empty. a-ne (sym name-of_a ∙ empty))
small-AreNamed (suc zero) key at =
    let same : 0 ≡ key = ground arith in
    subst (λ k. get_key_string strings k ≢ "") same (λ empty. null-ne (sym name-of_none ∙ empty))
small-AreNamed (suc (suc i)) key at = absurd (ground arith)

key_screen_lem_example :
    Returns
      (λ (r : ℕ × ℕ × ℕ).
        Returns
          (λ opened.
            Returns
              (Answered strings small (cell_idx small.tot_columns r.1 r.2) "ESC")
              (Key.on_button_answer_ok strings (record opened { entry = "ESC" }) small))
          (Key.change_to strings r.0 r.1 r.2 1 key_screen))
      (on_cell_name_activated 1 small)
key_screen_lem_example =
    key_screen_lem strings key_screen 1 "ESC" small strings-created
      (or_no_rows_lem (init_rows strings) all_rows-some) small-IsGrid small-IsShown small-AreNamed
      (omega arith)

abbrev server : ServerInfo
server = record {
  bt_addr = 1 ∷ 2 ∷ 3 ∷ 4 ∷ 5 ∷ 6 ∷ [];
  l2cap_port = pos 4097;
  name = unknown;
  sdp = false;
}

abbrev listing : KeyServers
listing = record {
  periods = 8;
  l2cap_port = pos 4097;
  extra_addr = empty_addr;
  last_error = no_error;
  servers = server ∷ [];
  future_valid = false;
  refresh_started = none;
  hung_thread = false;
  interval_timeout = some 0;
  signals = [];
}

abbrev unstaged : Staging
unstaged = record {
  cur_server = record { bt_addr = empty_addr; l2cap_port = pos 0; name = unknown; sdp = false };
  selected_addr = [];
  selected_port = pos 0;
  entry = [];
  addr = [];
  invalid = false;
}

-- The bytes of an address stand for its text.
unstaged-IsStaged : IsStaged (λ text. some text) (λ addr. addr) unstaged
unstaged-IsStaged = record { server = inr refl; selected = inl refl }

abbrev deeds : List Deed
deeds =
    selects (some (server.bt_addr, server.l2cap_port)) listing
    ∷ opens
    ∷ types (7 ∷ 7 ∷ [])
    ∷ confirms
    ∷ chooses listing
    ∷ []

act_all-IsStaged_example :
    Returns
      (IsStaged (λ text. some text) (λ addr. addr))
      (act_all (λ text. some text) (λ addr. addr) deeds unstaged)
act_all-IsStaged_example =
    act_all-IsStaged (λ text. some text) (λ addr. addr) (λ a. refl) deeds unstaged unstaged-IsStaged

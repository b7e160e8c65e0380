-- ===== src/Grid/RoundTrip.antt =====
-- btkbwindow.cc: `loadStateFromConfig` reads what `saveStateToConfig` writes.
use text.Mathlib.Text.{◌==◌ as str_eq}
use stmm_input_bt.Base.{
  false, ℕ, zero, suc, ◌*◌, ◌≤◌, ◌<◌, ◌≡◌, ◌≢◌, refl, ap, ◌∙◌, true, List, [], ◌∷◌, ◌++◌, Option,
  some, ℤ, pos, negsuc, ltb, length, length-map, length-take, length-append, length-resize, resize,
  set, take, map, arith,
}
use mathlib.Core.List.{append_assoc}
use stmm_input_bt.BdAddr.{BdAddr}
use stmm_input_bt.KeyServers.{ServerInfo, is_valid_port, is_valid_addr, is_valid_string_addr}
use stmm_input_bt.Util.Bounds.{AllIn}
use stmm_input_bt.Util.RoundTrip.{HasNoComma, string_to_vector-vector_to_string}
use stmm_input_bt.Util.Truncation.{string_to_vector-truncates}
use stmm_input_bt.InputStrings.{InputStrings, get_key_string}
use stmm_input_bt.Grid.State.{
  Grid, edit_default_weight, edit_min_weight, edit_max_weight, edit_max_grid_w, edit_max_grid_h,
  hk_null,
}
use stmm_input_bt.Grid.Edit.{write_at}
use stmm_input_bt.Grid.Config.{
  Config, max_int32, within, index_within, known_key, load_keys, load_server, save_server,
  save_grid, save_state, load_state,
}
use stmm_input_bt.Grid.Cells.{cell_idx_bound}
use stmm_input_bt.Grid.Wellformed.{IsGrid}

within-pos : (low high n : ℕ) → low ≤ n → n ≤ high → within low high (pos n) ≡ n
unfolding within
within-pos low high n h k = ground arith

index_within-pos : (total n : ℕ) → n < total → index_within total (pos n) ≡ n
unfolding index_within
index_within-pos total n h = ground arith

-- Keys that have names, and whose codes fit into the type.
abbrev pub AreKnown : InputStrings → List ℕ → Type 0
AreKnown strings [] = Unit {0}
AreKnown strings (key ∷ keys) =
    (key ≤ 2147483647) × (str_eq (get_key_string strings key) "" ≡ false) × AreKnown strings keys

AreKnown-AllIn :
    (strings : InputStrings) (keys : List ℕ)
    → AreKnown strings keys
    → AllIn (negsuc 0) max_int32 (map pos keys)
AreKnown-AllIn strings [] h = tt
AreKnown-AllIn strings (key ∷ keys) h =
    (omega arith, omega (arith, h.0), AreKnown-AllIn strings keys h.2)

AreKnown-take :
    (strings : InputStrings) (n : ℕ) (keys : List ℕ)
    → AreKnown strings keys
    → AreKnown strings (take n keys)
AreKnown-take strings zero keys h = tt
AreKnown-take strings (suc n) [] h = tt
AreKnown-take strings (suc n) (key ∷ keys) h = (h.0, h.1, AreKnown-take strings n keys h.2)

take-map : (n : ℕ) (keys : List ℕ) → take n (map pos keys) ≡ map pos (take n keys)
take-map zero keys = refl
take-map (suc n) [] = refl
take-map (suc n) (key ∷ keys) = ap (◌∷◌ (pos key)) (take-map n keys)

set-append :
    (done rest : List ℕ) (old new : ℕ)
    → set (done ++ (old ∷ rest)) (length done) new ≡ (done ++ (new ∷ [])) ++ rest
set-append [] rest old new = refl
set-append (x ∷ done) rest old new = ap (◌∷◌ x) (set-append done rest old new)

-- The loop writes known keys over the ones before.
load_keys-pos :
    (strings : InputStrings) (keys done rest : List ℕ)
    → AreKnown strings keys
    → length rest ≡ length keys
    → load_keys strings (length done) (map pos keys) (done ++ rest) ≡ some (done ++ keys)
unfolding load_keys write_at known_key
load_keys-pos strings [] done [] h e = refl
load_keys-pos strings [] done (r ∷ rest) h e = absurd (omega (arith, e))
load_keys-pos strings (key ∷ keys) done [] h e = absurd (omega (arith, e))
load_keys-pos strings (key ∷ keys) done (r ∷ rest) h e =
    let inside : ltb (length done) (length (done ++ (r ∷ rest))) ≡ true =
      ground (arith, length-append done (r ∷ rest)) in
    let next : suc (length done) ≡ length (done ++ (key ∷ [])) =
      omega (arith, length-append done (key ∷ [])) in
    rw (inside, h.1, set-append done rest r key, next)
      (load_keys-pos strings keys (done ++ (key ∷ [])) rest h.2 (omega (arith, e))
        ∙ ap some (append_assoc done (key ∷ []) keys))

load_server-valid :
    (str2ba : List ℕ → Option BdAddr) (c : Config) (server : ServerInfo) (addr : BdAddr)
    → str2ba c.selected_server_addr ≡ some addr
    → is_valid_addr addr ≡ true
    → is_valid_port c.selected_server_port ≡ true
    → load_server str2ba c server
      ≡ some (record server { bt_addr = addr; l2cap_port = c.selected_server_port })
unfolding load_server is_valid_string_addr
load_server-valid str2ba c server addr there valid port = ground (arith, there, valid, port)

-- The grid `g0` after the loading of what was saved of `g`: the keys are those of the cells, with
-- their names.
abbrev pub reloaded : InputStrings → Grid → Grid → Grid
reloaded strings g g0 =
    let keys = take (g.tot_columns * g.tot_rows) g.edit_hk in
    record g {
      edit_hk = keys;
      edit_names = map (get_key_string strings) keys;
      cur_server = record g0.cur_server {
        bt_addr = g.cur_server.bt_addr;
        l2cap_port = g.cur_server.l2cap_port;
      };
      column_weight_rows = g0.column_weight_rows;
      row_weight_rows = g0.row_weight_rows;
      cell_rows = g0.cell_rows;
    }

-- `loadStateFromConfig` into `g0` of what `saveStateToConfig` stored of a well-formed grid `g` whose keys
-- have names and whose server has a valid address and port, where texts of numbers and of addresses
-- are read back: the sizes, weights, cells' keys and settings of `g` and the server's address and port.
pub load_state-save_state :
    (to_string : ℤ → List ℕ) (read_number : List ℕ → Option ℤ) (ba2str : BdAddr → List ℕ)
    (str2ba : List ℕ → Option BdAddr)
    → ((n : ℤ) → to_string n ≢ [])
    → ((n : ℤ) → HasNoComma (to_string n))
    → ((n : ℤ) → read_number (to_string n) ≡ some n)
    → ((addr : BdAddr) → str2ba (ba2str addr) ≡ some addr)
    → (strings : InputStrings) (c : Config) (g g0 : Grid) → IsGrid g
    → AreKnown strings g.edit_hk
    → is_valid_port g.cur_server.l2cap_port ≡ true
    → is_valid_addr g.cur_server.bt_addr ≡ true
    → load_state to_string read_number ba2str str2ba strings
        (save_state to_string read_number ba2str str2ba g c)
        g0
      ≡ some (reloaded strings g g0)
unfolding load_state save_state
load_state-save_state to_string read_number ba2str str2ba some_text no_comma reads back strings c g
      g0 h known port addr =
    let total = g.tot_columns * g.tot_rows in
    let some_cell : 1 ≤ total =
      omega (arith, cell_idx_bound g.tot_columns g.tot_rows 0 0 h.columns.0 h.rows.0) in
    let columns = within-pos 1 edit_max_grid_w g.tot_columns h.columns.0 h.columns.1 in
    let rows = within-pos 1 edit_max_grid_h g.tot_rows h.rows.0 h.rows.1 in
    let column_weights =
      string_to_vector-vector_to_string to_string read_number some_text no_comma reads
        g.edit_columns_weight g.tot_columns g.tot_columns edit_min_weight edit_max_weight
        edit_default_weight h.column_weights.1 (omega (arith, h.column_weights.0))
        (omega (arith, h.column_weights.0)) h.columns.0 (omega arith) (omega arith) in
    let row_weights =
      string_to_vector-vector_to_string to_string read_number some_text no_comma reads
        g.edit_rows_weight g.tot_rows g.tot_rows edit_min_weight edit_max_weight edit_default_weight
        h.row_weights.1 (omega (arith, h.row_weights.0)) (omega (arith, h.row_weights.0)) h.rows.0
        (omega arith) (omega arith) in
    let codes =
      string_to_vector-truncates to_string read_number some_text no_comma reads (map pos g.edit_hk)
        total total (negsuc 0) max_int32 (negsuc 0) (AreKnown-AllIn strings g.edit_hk known)
        (omega (arith, length-map pos g.edit_hk, h.fits.1)) (omega arith) some_cell (omega arith)
        (omega arith) in
    let keys =
      load_keys-pos strings (take total g.edit_hk) [] (resize total hk_null g0.edit_hk)
        (AreKnown-take strings total g.edit_hk known)
        (omega
          (arith, length-resize total hk_null g0.edit_hk, length-take total g.edit_hk, h.fits.1)) in
    let c' =
      save_server to_string read_number ba2str str2ba g.cur_server
        (save_grid to_string read_number ba2str str2ba g c) in
    let saved : save_state to_string read_number ba2str str2ba g c ≡ c' = rw port refl in
    let server =
      load_server-valid str2ba c' g0.cur_server g.cur_server.bt_addr (back g.cur_server.bt_addr)
        addr port in
    rw
      (
        saved,
        columns,
        rows,
        column_weights,
        row_weights,
        codes,
        take-map total g.edit_hk,
        keys,
        server,
        within-pos 0 100 g.exit_button_perc_x (omega arith) h.exit_position.0,
        within-pos 0 100 g.exit_button_perc_y (omega arith) h.exit_position.1,
        index_within-pos g.tot_columns g.exit_in_cell_column h.exit_column,
        index_within-pos g.tot_rows g.exit_in_cell_row h.exit_row,
      )
      refl

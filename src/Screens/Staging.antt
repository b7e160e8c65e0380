-- ===== src/Screens/Staging.antt =====
-- addrscreen.cc, and of btkbwindow.cc the choice of the server: the selected row of the list of servers, the
-- server to which the user will connect, and the address that the user enters. A text is its characters;
-- `str2ba` and `ba2str` of the bluetooth headers are parameters, the former `none` if it fails.
use stmm_input_bt.Base.{
  ℕ, Bool, true, false, not, ◌&&◌, ◌||◌, List, [], ◌∷◌, Option, none, some, ℤ, pos, leb_ℤ,
  if◌then◌else◌, ◌>>=◌, ◌>>◌, assert,
}
use stmm_input_bt.BdAddr.{BdAddr, same_addr, empty_addr}
use stmm_input_bt.KeyServers.{
  ServerInfo, KeyServers, get_servers, unknown, is_valid_port, is_valid_addr, is_valid,
  is_valid_string_addr,
}

abbrev pub Text : Type 0
Text = List ℕ

abbrev pub same_text : Text → Text → Bool
same_text s t = same_addr s t

abbrev pub is_empty : Text → Bool
is_empty text = same_text text []

abbrev pub same_port : ℤ → ℤ → Bool
same_port p q = leb_ℤ p q && leb_ℤ q p

-- Of the window `m_oCurServer`, `m_sSelectedAddr` and `m_nSelectedPort`; of the screen the text of the entry,
-- `m_sAddr`, and whether the label tells of an error.
pub record Staging : Type 0 where
  pub cur_server : ServerInfo
  pub selected_addr : Text
  pub selected_port : ℤ
  pub entry : Text
  pub addr : Text
  pub invalid : Bool

-- The loop of `onChooseServer`, where `name_of` is `getStringFromAddr`.
unfoldable pub find_server : (BdAddr → Text) → Text → ℤ → List ServerInfo → Option ServerInfo
find_server name_of text port [] = none
find_server name_of text port (info ∷ infos) =
    let later = find_server name_of text port infos in
    if same_text (name_of info.bt_addr) text && same_port port info.l2cap_port
    then some info
    else later

module _ (str2ba : Text → Option BdAddr) (ba2str : BdAddr → Text) where
  -- `setAddr`
  unfoldable pub set_addr : Text → Staging → Option Staging
  set_addr [] s =
      some
        (record s { cur_server = record s.cur_server { bt_addr = empty_addr; l2cap_port = pos 0 } })
  set_addr (c ∷ text) s = do
    addr ← str2ba (c ∷ text)
    let port = s.cur_server.l2cap_port
    some (record s {
      cur_server = record s.cur_server {
        bt_addr = addr;
        l2cap_port = if not (is_valid_port port) then pos 8353 else port;
      };
    })

  -- `onChooseServer`, with what `getServers` does to the servers.
  unfoldable pub on_choose_server : KeyServers → Staging → Option (Staging × KeyServers)
  unfolding find_server
  on_choose_server k s =
      let chosen = (do
        addr ← str2ba s.selected_addr
        let temp : ServerInfo = record {
          bt_addr = addr;
          l2cap_port = s.selected_port;
          name = unknown;
          sdp = false;
        }
        let staged : Staging =
            elim (find_server ba2str s.selected_addr s.selected_port (get_servers k).1) [
              | none ↦ s
              | some info ↦ record s { cur_server = info }
            ]
        some (if not (is_valid temp) then (s, k) else (staged, (get_servers k).0))) in
      if same_port s.selected_port (pos 0) then some (s, k) else chosen

  -- `onServerSelectionChanged`, with the address and the port of the selected row if there is one. The rows
  -- are those of `recreateServersList`.
  unfoldable pub on_server_selection_changed :
      Option (BdAddr × ℤ) → KeyServers → Staging → Option (Staging × KeyServers)
  unfolding on_choose_server
  on_server_selection_changed none k s = some (record s { selected_port = pos 0 }, k)
  on_server_selection_changed (some (addr, port)) k s =
      let s' = record s { selected_addr = ba2str addr; selected_port = port } in
      if same_port s'.cur_server.l2cap_port (pos 0) then on_choose_server k s' else some (s', k)

  -- `changeTo` of the screen, which always returns true.
  unfoldable pub change_to : Text → Staging → Option Staging
  change_to text s = do
    assert (is_empty text || is_valid_string_addr str2ba text)
    some (record s { entry = text; addr = text; invalid = false })

  -- `onInputStagedServer`
  unfoldable pub on_input_staged_server : Staging → Option Staging
  unfolding change_to
  on_input_staged_server s =
      let server = s.cur_server in
      change_to
        (if is_valid_port server.l2cap_port && is_valid_addr server.bt_addr
          then ba2str server.bt_addr
          else [])
        s

  -- `onEntryAddrChanged`, with the new text of the entry.
  abbrev pub on_entry_addr_changed : Text → Staging → Staging
  on_entry_addr_changed text s = record s {
    entry = text;
    addr = if is_empty text || is_valid_string_addr str2ba text then text else s.addr;
  }

  -- `onButtonAnswerOk`, with whether the main screen is back.
  unfoldable pub on_button_answer_ok : Staging → Option (Staging × Bool)
  unfolding set_addr
  on_button_answer_ok s =
      let changed = (do s' ← set_addr s.entry s; some (s', true)) in
      if is_empty s.entry || is_valid_string_addr str2ba s.entry
      then changed
      else some (record s { invalid = true }, false)

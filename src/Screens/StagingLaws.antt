-- ===== src/Screens/StagingLaws.antt =====
-- The server to which the user will connect has a valid address or none.
use stmm_input_bt.Base.{
  ◌≡◌, ◌⊎◌, inl, inr, refl, sym, ap, ◌∙◌, true, false, ◌&&◌, ◌||◌, List, [], ◌∷◌, Option, none,
  some, ℤ, pos, ◌>>=◌, arith, Returns, Returns->>=, Option-cases, Bool-cases,
}
use stmm_input_bt.BdAddr.{BdAddr, same_addr, same_addr_iff, empty_addr}
use stmm_input_bt.KeyServers.{
  ServerInfo, KeyServers, get_servers, unknown, is_valid_port, is_valid_addr, is_valid,
  is_valid_string_addr,
}
use stmm_input_bt.Screens.Staging.{
  Text, same_text, is_empty, same_port, Staging, find_server, set_addr, on_choose_server,
  on_server_selection_changed, change_to, on_input_staged_server, on_entry_addr_changed,
  on_button_answer_ok,
}

-- What the user does.
pub data Deed : Type 0 where
  selects : Option (BdAddr × ℤ) → KeyServers → Deed
  chooses : KeyServers → Deed
  opens : Deed
  types : Text → Deed
  confirms : Deed

module _ (str2ba : Text → Option BdAddr) (ba2str : BdAddr → Text) where
  unfoldable pub act : Deed → Staging → Option Staging
  act (selects row k) s = do (s', k') ← on_server_selection_changed str2ba ba2str row k s; some s'
  act (chooses k) s = do (s', k') ← on_choose_server str2ba ba2str k s; some s'
  act opens s = on_input_staged_server str2ba ba2str s
  act (types text) s = some (on_entry_addr_changed str2ba ba2str text s)
  act confirms s = do (s', closed) ← on_button_answer_ok str2ba ba2str s; some s'

  unfoldable pub act_all : List Deed → Staging → Option Staging
  unfolding act
  act_all [] s = some s
  act_all (deed ∷ deeds) s = do s' ← act deed s; act_all deeds s'

  -- The staged server has a valid address or the empty one, and a selected row has an address.
  pub record IsStaged (s : Staging) : Type 0 where
    pub server : (is_valid_addr s.cur_server.bt_addr ≡ true) ⊎ (s.cur_server.bt_addr ≡ empty_addr)
    pub selected :
        (same_port s.selected_port (pos 0) ≡ true) ⊎ ((a : BdAddr) × (s.selected_addr ≡ ba2str a))

module _ (str2ba : Text → Option BdAddr) (ba2str : BdAddr → Text)
    (reads : (a : BdAddr) → str2ba (ba2str a) ≡ some a) where
  find_server-addr :
      (a : BdAddr) (port : ℤ) (servers : List ServerInfo) (info : ServerInfo)
      → find_server ba2str (ba2str a) port servers ≡ some info
      → info.bt_addr ≡ a
  unfolding find_server
  find_server-addr a port [] info e = absurd (ground arith)
  find_server-addr a port (i ∷ servers) info e =
      elim (Bool-cases (same_text (ba2str i.bt_addr) (ba2str a) && same_port port i.l2cap_port)) [
        | inl here ↦
            let same : ba2str i.bt_addr ≡ ba2str a =
              (same_addr_iff (ba2str i.bt_addr) (ba2str a)).0 (ground arith) in
            let it : i ≡ info = ground arith in
            let both : some i.bt_addr ≡ some a = sym (reads i.bt_addr) ∙ ap str2ba same ∙ reads a in
            ap (λ x. x.bt_addr) (sym it) ∙ ground arith
        | inr other ↦ find_server-addr a port servers info (ground arith)
      ]

  valid-addr : (info : ServerInfo) → is_valid info ≡ true → is_valid_addr info.bt_addr ≡ true
  unfolding is_valid
  valid-addr info h = ground arith

  -- What `getServers` does to the servers matters to nothing of it.
  abbrev StagedWith : Staging × KeyServers → Type 0
  StagedWith r = IsStaged str2ba ba2str r.0

  choose-IsStaged :
      (k : KeyServers) (s : Staging)
      → IsStaged str2ba ba2str s
      → Returns StagedWith (on_choose_server str2ba ba2str k s)
  unfolding on_choose_server
  choose-IsStaged k s v = elim (Bool-cases (same_port s.selected_port (pos 0))) [
    | inl nothing ↦ rw (on_choose_server, nothing) v
    | inr chosen ↦ elim v.selected [
      | inl nothing ↦ absurd (ground arith)
      | inr (a, at) ↦
          let temp : ServerInfo = record {
            bt_addr = a;
            l2cap_port = s.selected_port;
            name = unknown;
            sdp = false;
          } in
          let read : str2ba s.selected_addr ≡ some a = ap str2ba at ∙ reads a in
          elim (Bool-cases (is_valid temp)) [
            | inr bad ↦ rw (on_choose_server, chosen, read, bad) v
            | inl good ↦
                let valid : is_valid_addr a ≡ true = valid-addr temp good in
                elim (Option-cases
                  (find_server ba2str s.selected_addr s.selected_port (get_servers k).1)) [
                    | inl missing ↦ rw (on_choose_server, chosen, read, good, missing) v
                    | inr (info, found) ↦
                        let listed : find_server ba2str (ba2str a) s.selected_port (get_servers k).1
                            ≡ some info =
                          ap (λ t. find_server ba2str t s.selected_port (get_servers k).1) (sym at)
                          ∙ found in
                        let same : info.bt_addr ≡ a =
                          find_server-addr a s.selected_port (get_servers k).1 info listed in
                        rw (on_choose_server, chosen, read, good, found)
                          (record {
                            server = inl (ap is_valid_addr same ∙ valid);
                            selected = v.selected;
                          })
                  ]
          ]
    ]
  ]

  select-IsStaged :
      (row : Option (BdAddr × ℤ)) (k : KeyServers) (s : Staging)
      → IsStaged str2ba ba2str s
      → Returns StagedWith (on_server_selection_changed str2ba ba2str row k s)
  unfolding on_server_selection_changed
  select-IsStaged none k s v = record { server = v.server; selected = inl (ground arith) }
  select-IsStaged (some (a, port)) k s v =
      let s' : Staging = record s { selected_addr = ba2str a; selected_port = port } in
      let v' : IsStaged str2ba ba2str s' = record { server = v.server; selected = inr (a, refl) } in
      elim (Bool-cases (same_port s.cur_server.l2cap_port (pos 0))) [
        | inl empty ↦ rw (on_server_selection_changed, empty) (choose-IsStaged k s' v')
        | inr staged ↦ rw (on_server_selection_changed, staged) v'
      ]

  read-valid : (a : BdAddr) → is_valid_addr a ≡ true → is_valid_string_addr str2ba (ba2str a) ≡ true
  unfolding is_valid_string_addr
  read-valid a h = rw (is_valid_string_addr, reads a) h

  open-IsStaged :
      (s : Staging)
      → IsStaged str2ba ba2str s
      → Returns (IsStaged str2ba ba2str) (on_input_staged_server str2ba ba2str s)
  unfolding on_input_staged_server change_to same_addr
  open-IsStaged s v =
      let server = s.cur_server in
      elim (Bool-cases (is_valid_port server.l2cap_port && is_valid_addr server.bt_addr)) [
        | inr bad ↦
            rw (on_input_staged_server, change_to, bad)
              (record { server = v.server; selected = v.selected })
        | inl good ↦
            let passes : (is_empty (ba2str server.bt_addr)
                  || is_valid_string_addr str2ba (ba2str server.bt_addr))
                ≡ true =
              ground (arith, read-valid server.bt_addr) in
            rw (on_input_staged_server, change_to, good, passes)
              (record { server = v.server; selected = v.selected })
      ]

  set_addr-IsStaged :
      (text : Text) (s : Staging)
      → IsStaged str2ba ba2str s
      → (is_empty text || is_valid_string_addr str2ba text) ≡ true
      → Returns (IsStaged str2ba ba2str) (set_addr str2ba ba2str text s)
  unfolding set_addr is_valid_string_addr same_addr
  set_addr-IsStaged [] s v h = record { server = inr refl; selected = v.selected }
  set_addr-IsStaged (c ∷ text) s v h = elim (Option-cases (str2ba (c ∷ text))) [
    | inl bad ↦ absurd (ground arith)
    | inr (a, read) ↦
        rw (set_addr, read) (record { server = inl (ground arith); selected = v.selected })
  ]

  confirm-IsStaged :
      (s : Staging)
      → IsStaged str2ba ba2str s
      → Returns (IsStaged str2ba ba2str) (act str2ba ba2str confirms s)
  unfolding act on_button_answer_ok
  confirm-IsStaged s v =
      elim (Bool-cases (is_empty s.entry || is_valid_string_addr str2ba s.entry)) [
        | inr bad ↦
            rw (act, on_button_answer_ok, bad) (record { server = v.server; selected = v.selected })
        | inl good ↦ ground (arith, good, set_addr-IsStaged s.entry s v good)
      ]

  act-IsStaged :
      (deed : Deed) (s : Staging)
      → IsStaged str2ba ba2str s
      → Returns (IsStaged str2ba ba2str) (act str2ba ba2str deed s)
  unfolding act
  act-IsStaged (selects row k) s v =
      Returns->>= StagedWith (IsStaged str2ba ba2str)
        (on_server_selection_changed str2ba ba2str row k s) _ (select-IsStaged row k s v) (λ r h. h)
  act-IsStaged (chooses k) s v =
      Returns->>= StagedWith (IsStaged str2ba ba2str) (on_choose_server str2ba ba2str k s) _
        (choose-IsStaged k s v) (λ r h. h)
  act-IsStaged opens s v = open-IsStaged s v
  act-IsStaged (types text) s v = record { server = v.server; selected = v.selected }
  act-IsStaged confirms s v = confirm-IsStaged s v

  -- Whatever rows of the list the user selects and chooses, and whatever addresses the user enters and
  -- confirms, in any order and with any servers, where `str2ba` reads what `ba2str` wrote: no
  -- assertion fails, and the server to which the user will connect has a valid address or the empty
  -- one.
  pub act_all-IsStaged :
      (deeds : List Deed) (s : Staging)
      → IsStaged str2ba ba2str s
      → Returns (IsStaged str2ba ba2str) (act_all str2ba ba2str deeds s)
  unfolding act_all
  act_all-IsStaged [] s v = v
  act_all-IsStaged (deed ∷ deeds) s v =
      Returns->>= (IsStaged str2ba ba2str) (IsStaged str2ba ba2str) (act str2ba ba2str deed s)
        (act_all str2ba ba2str deeds) (act-IsStaged deed s v)
        (λ s' v'. act_all-IsStaged deeds s' v')

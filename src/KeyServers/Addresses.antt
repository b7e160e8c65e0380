-- ===== src/KeyServers/Addresses.antt =====
-- btkeyservers.cc: which addresses and ports are valid, and which servers a refresh finds.
use stmm_input_bt.Base.{
  ℕ, ◌%◌, ◌≤◌, ◌≡◌, ◌↔◌, ◌⊎◌, refl, Bool, true, false, ◌||◌, List, [], ◌∷◌, Option, none, some,
  arith, ℤ, pos, negsuc, length, replicate,
}
use stmm_input_bt.BdAddr.{BdAddr, same_addr, same_addr_refl}
use stmm_input_bt.KeyServers.{
  ServerInfo, is_empty_addr, is_valid_port, differs, is_valid_addr, add_extra_server, Inquiry,
  closed_socket, refused_inquiry, found, server_of, list_found, refresh_servers,
}

differs-replicate : (a : ℕ) (bs : List ℕ) → (differs a bs ≡ false) ↔ (bs ≡ replicate (length bs) a)
unfolding differs
differs-replicate a [] = ((λ _. refl), λ _. refl)
differs-replicate a (b ∷ bs) = ground (arith, differs-replicate a bs)

-- An address that is not empty is invalid exactly if all its bytes are 0 or all are 0xFF.
pub is_valid_addr_lem :
    (first : ℕ) (rest : List ℕ)
    → (is_valid_addr (first ∷ rest) ≡ false) ↔ (
        (first ∷ rest ≡ 0 ∷ replicate (length rest) 0)
        ⊎ (first ∷ rest ≡ 255 ∷ replicate (length rest) 255))
unfolding is_valid_addr
is_valid_addr_lem first rest = ground (arith, differs-replicate first rest)

-- A port is valid exactly if it is an odd number from 4097 to 32765.
pub is_valid_port_lem :
    (port : ℤ)
    → (is_valid_port port ≡ true)
      ↔ ((n : ℕ) × (port ≡ pos n) × (4097 ≤ n) × (n ≤ 32765) × (n % 2 ≡ 1))
unfolding is_valid_port
is_valid_port_lem (negsuc n) = ((λ h. absurd (ground arith)), λ (m, e, low, high, odd). absurd cc)
is_valid_port_lem (pos n) = (
  (λ h. (n, refl, ground arith, ground arith, ground arith)),
  λ (m, e, low, high, odd). let same : n ≡ m = ground arith in ground arith,
)

-- Whether a server has the address.
unfoldable pub has_addr : BdAddr → List ServerInfo → Bool
has_addr addr [] = false
has_addr addr (s ∷ servers) = same_addr addr s.bt_addr || has_addr addr servers

has_addr-add_extra_server :
    (port : ℤ) (extra : BdAddr) (servers : List ServerInfo)
    → has_addr extra (add_extra_server port extra servers) ≡ true
unfolding has_addr add_extra_server
has_addr-add_extra_server port extra [] = ground (arith, same_addr_refl extra)
has_addr-add_extra_server port extra (s ∷ servers) =
    ground (arith, has_addr-add_extra_server port extra servers)

has_addr-list_found :
    (port : ℤ) (extra : BdAddr) (devices : List (BdAddr × Option (List ℕ)))
    → is_empty_addr extra ≡ false
    → (list_found port extra devices).1 ≡ has_addr extra (list_found port extra devices).0
unfolding has_addr list_found server_of
has_addr-list_found port extra [] h = refl
has_addr-list_found port extra ((addr, none) ∷ devices) h =
    ground (arith, has_addr-list_found port extra devices h)
has_addr-list_found port extra ((addr, some text) ∷ devices) h =
    ground (arith, has_addr-list_found port extra devices h)

-- The extra server, if its address is not the empty one, is among the servers of every refresh,
-- also of one that fails.
pub refresh_servers-has_addr :
    (port : ℤ) (extra : BdAddr) (inquiry : Inquiry)
    → is_empty_addr extra ≡ false
    → has_addr extra (refresh_servers port extra inquiry).1 ≡ true
unfolding refresh_servers
refresh_servers-has_addr port extra (closed_socket n) h = has_addr-add_extra_server port extra []
refresh_servers-has_addr port extra (refused_inquiry n) h = has_addr-add_extra_server port extra []
refresh_servers-has_addr port extra (found devices) h = ground (
  arith,
  has_addr-list_found port extra devices h,
  has_addr-add_extra_server port extra (list_found port extra devices).0,
)

-- ===== src/KeyServers.antt =====
-- stmm-input-btkb/src/btkeyservers.cc: the list of servers and its refresh, which another thread
-- does while an interval timeout looks for its result. What the thread found is an argument.
pub mod Addresses
pub mod Refresh
mod Tests
use stmm_input_bt.Base.{
  ℕ, ◌+◌, ◌-◌, ◌*◌, ◌^◌, ◌/◌, ◌%◌, max, Bool, true, false, not, ◌&&◌, ◌||◌, List, [], ◌∷◌, ◌++◌,
  Option, none, some, ℤ, pos, pos_part, leb_ℤ, ltb, ◌==◌, if◌then◌else◌, ◌>>=◌, ◌>>◌, assert,
  is_some,
}
use stmm_input_bt.BdAddr.{BdAddr, same_addr, empty_addr}

-- A name: "Unknown", the one that the device told, or the address as a text.
pub data ServerName : Type 0 where
  unknown : ServerName
  told : List ℕ → ServerName
  address : BdAddr → ServerName

pub record ServerInfo : Type 0 where
  pub bt_addr : BdAddr
  pub l2cap_port : ℤ
  pub name : ServerName
  pub sdp : Bool

-- `m_sLastError`; an argument is the errno.
pub data RefreshError : Type 0 where
  no_error : RefreshError
  no_socket inquiry_failed : ℕ → RefreshError
  too_long : RefreshError

-- The signals, the newest first: the servers changed, or the seconds that the refresh takes.
pub data ServersSignal : Type 0 where
  servers_changed : ServersSignal
  refresh_progress : ℕ → ServersSignal

-- `refresh_started` is `none` for -1, `interval_timeout` its elapsed milliseconds.
pub record KeyServers : Type 0 where
  pub periods : ℕ
  pub l2cap_port : ℤ
  pub extra_addr : BdAddr
  pub last_error : RefreshError
  pub servers : List ServerInfo
  pub future_valid : Bool
  pub refresh_started : Option ℕ
  pub hung_thread : Bool
  pub interval_timeout : Option ℕ
  pub signals : List ServersSignal

abbrev pub is_empty_addr : BdAddr → Bool
is_empty_addr addr = same_addr empty_addr addr

unfoldable pub is_valid_port : ℤ → Bool
is_valid_port port =
    if not (leb_ℤ (pos 4097) port && leb_ℤ port (pos 32765))
    then false
    else if pos_part port % 2 == 0
    then false
    else true

-- The loop of `isValidAddr`: whether a byte is not the first.
unfoldable pub differs : ℕ → List ℕ → Bool
differs first [] = false
differs first (b ∷ bs) = let rest = differs first bs in if not (b == first) then true else rest

unfoldable pub is_valid_addr : BdAddr → Bool
unfolding differs
is_valid_addr [] = false
is_valid_addr (first ∷ rest) =
    if differs first rest then true else not (first == 0) && not (first == 255)

unfoldable pub is_valid : ServerInfo → Bool
unfolding is_valid_port is_valid_addr
is_valid info = if not (is_valid_port info.l2cap_port) then false else is_valid_addr info.bt_addr

-- `str2ba` of the bluetooth headers is `none` if it fails.
module _ {T : Type 0} (str2ba : T → Option BdAddr) where
  -- `isValidStringAddr`
  unfoldable pub is_valid_string_addr : T → Bool
  is_valid_string_addr text = elim (str2ba text) [ none ↦ false | some addr ↦ is_valid_addr addr ]

  -- `getAddrFromString`
  abbrev pub get_addr_from_string : T → Option BdAddr
  get_addr_from_string text = str2ba text

-- `addExtraServer`
unfoldable pub add_extra_server : ℤ → BdAddr → List ServerInfo → List ServerInfo
add_extra_server port extra servers =
    servers ++ (record { bt_addr = extra; l2cap_port = port; name = unknown; sdp = false } ∷ [])

-- What the adapter answers: no socket, no inquiry, or devices with their names if they tell them.
pub data Inquiry : Type 0 where
  closed_socket refused_inquiry : ℕ → Inquiry
  found : List (BdAddr × Option (List ℕ)) → Inquiry

-- A server of the inquiry.
unfoldable pub server_of : ℤ → BdAddr × Option (List ℕ) → ServerInfo
server_of port (addr, none) = record {
  bt_addr = addr;
  l2cap_port = port;
  name = address addr;
  sdp = false;
}
server_of port (addr, some text) = record {
  bt_addr = addr;
  l2cap_port = port;
  name = told text;
  sdp = false;
}

-- The loop of `refreshServers`, with `bExtraAddrFound`.
unfoldable pub list_found : ℤ → BdAddr → List (BdAddr × Option (List ℕ)) → List ServerInfo × Bool
unfolding server_of
list_found port extra [] = ([], false)
list_found port extra ((addr, name) ∷ devices) =
    let (servers, extra_found) = list_found port extra devices in
    (
      server_of port (addr, name) ∷ servers,
      (not (is_empty_addr extra) && same_addr extra addr) || extra_found,
    )

-- `refreshServers`
unfoldable pub refresh_servers : ℤ → BdAddr → Inquiry → RefreshError × List ServerInfo
unfolding add_extra_server list_found
refresh_servers port extra (closed_socket n) = (no_socket n, add_extra_server port extra [])
refresh_servers port extra (refused_inquiry n) = (inquiry_failed n, add_extra_server port extra [])
refresh_servers port extra (found devices) =
    let (servers, extra_found) = list_found port extra devices in
    (
      no_error,
      if not (is_empty_addr extra) && not extra_found
          then add_extra_server port extra servers
          else servers,
    )

-- `startRefreshServers`; the timeout is created with nothing elapsed.
unfoldable pub start_refresh_servers : KeyServers → KeyServers × Bool
start_refresh_servers k = elim k.refresh_started [
  | some s ↦ (k, false)
  | none ↦
      let t : ℕ = elim k.interval_timeout [ none ↦ 0 | some t ↦ t ] in
      (
        record k {
          last_error = no_error;
          interval_timeout = some t;
          refresh_started = some t;
          future_valid = true;
        },
        true,
      )
]

-- How long a refresh may take. The product is of type `int32_t`; where it does not fit, it is undefined.
abbrev pub limit_fits : KeyServers → Bool
limit_fits k = ltb (2 * 1280 * k.periods) (2 ^ 31)

abbrev pub refresh_limit : KeyServers → ℕ
refresh_limit k = max 14000 (2 * 1280 * k.periods)

-- `doIntervalTimeout`, which always returns true; `none` is a future that is not ready.
unfoldable pub do_refresh_timeout :
    KeyServers → Option (RefreshError × List ServerInfo) → Option KeyServers
do_refresh_timeout k result = elim k.refresh_started [
  | none ↦ some k
  | some s ↦ assert k.future_valid >> elim result [
    | some (error, servers) ↦ some (record k {
      servers = servers;
      future_valid = false;
      refresh_started = none;
      last_error = elim error [ no_error ↦ k.last_error | other ↦ other ];
      signals = servers_changed ∷ k.signals;
    })
    | none ↦ do
      t ← k.interval_timeout
      assert (limit_fits k)
      let elapsed = t - s
      let k' = record k { signals = refresh_progress (elapsed / 1000) ∷ k.signals }
      some (
          if ltb (refresh_limit k) elapsed
          then record k' {
            hung_thread = true;
            refresh_started = none;
            last_error = too_long;
            signals = servers_changed ∷ k'.signals;
          }
          else k')
  ]
]

-- The callback of the interval timeout, each second.
unfoldable pub tick : KeyServers → Option (RefreshError × List ServerInfo) → Option KeyServers
tick k result = do
  t ← k.interval_timeout
  do_refresh_timeout (record k { interval_timeout = some (t + 1000) }) result

-- `getServers`
unfoldable pub get_servers : KeyServers → KeyServers × List ServerInfo
get_servers k =
    let k' =
      if is_empty_addr k.extra_addr && not (is_some k.interval_timeout)
      then (start_refresh_servers k).0
      else k in
    (k', k'.servers)

-- The constructor: `extra_server` is the flag of the private one.
unfoldable pub create_servers : ℕ → ℤ → Bool → BdAddr → KeyServers
unfolding add_extra_server
create_servers periods port extra_server addr =
    let extra = if extra_server then addr else empty_addr in
    record {
      periods = periods;
      l2cap_port = port;
      extra_addr = extra;
      last_error = no_error;
      servers = if not (is_empty_addr extra) then add_extra_server port extra [] else [];
      future_valid = false;
      refresh_started = none;
      hung_thread = false;
      interval_timeout = none;
      signals = [];
    }

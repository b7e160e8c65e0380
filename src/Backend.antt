-- ===== src/Backend.antt =====
-- libstmm-input-gtk-bt/src/btgtkbackend.cc, `GtkBackend`: which client has which backend id, and the
-- handling of a connecting client and of its packets. The owner (the device manager) is a parameter,
-- its state `M`; a call that stops the program is `none`.
pub mod Ids
pub mod Slots
pub mod Accept
pub mod Receive
pub mod Link
use stmm_input_bt.Base.{
  ℕ, zero, suc, Bool, true, false, not, List, [], ◌∷◌, ◌++◌, Option, none, some, length, get_elem?,
  set, ltb, ◌==◌, if◌then◌else◌, ◌>>=◌, ◌>>◌, assert, is_some,
}
use stmm_input_bt.BdAddr.{BdAddr, same_addr, empty_addr}
use stmm_input_bt.KeyPacket.{KeyPacket, PacketCmd, cmd_code}
use stmm_input_bt.ReceiveSource.{ReceiveSource}

-- `m_aPermanentAddrs` and `m_aInputSources`, where a null pointer is `none`.
pub record Backend : Type 0 where
  pub permanent_addrs : List BdAddr
  pub input_sources : List (Option ReceiveSource)

abbrev pub no_clients : Backend
no_clients = record { permanent_addrs = []; input_sources = [] }

-- `getBackendId`, with `none` for -1.
unfoldable pub get_backend_id : List BdAddr → BdAddr → Option ℕ
get_backend_id [] addr = none
get_backend_id (a ∷ addrs) addr =
    let rest = (do i ← get_backend_id addrs addr; some (suc i)) in
    if same_addr a addr then some 0 else rest

unfoldable pub is_empty_bd_addr : BdAddr → Bool
is_empty_bd_addr addr = same_addr empty_addr addr

-- The slot of a client that is not known: a freed one with its new address, or one more.
unfoldable pub new_slot : Backend → BdAddr → Option (Backend × ℕ)
unfolding get_backend_id
new_slot b addr = elim (get_backend_id b.permanent_addrs empty_addr) [
  | none ↦ some (
    record b {
      permanent_addrs = b.permanent_addrs ++ (addr ∷ []);
      input_sources = b.input_sources ++ (none ∷ []);
    },
    length b.permanent_addrs,
  )
  | some i ↦ do
    source ← get_elem? b.input_sources i
    assert (not (is_some source))
    some (record b { permanent_addrs = set b.permanent_addrs i addr }, i)
]

-- The source that a client gets.
abbrev pub attached : ℕ → ℕ → ReceiveSource
attached id fd = record { backend_id = id; client_fd = some fd; destroyed = false }

module _ {M : Type 0} (on_device_added : BdAddr → ℕ → M → Option M)
    (on_blue_key : ℕ → ℕ → ℕ → M → Option (M × Bool)) (on_device_removed : ℕ → M → Option M) where
  -- `doServerAcceptClient`
  unfoldable pub do_server_accept_client : Backend → M → ℕ → BdAddr → Option (Backend × M)
  do_server_accept_client b m fd addr = elim (get_backend_id b.permanent_addrs addr) [
    | none ↦ do
      (b', i) ← new_slot b addr
      m' ← on_device_added addr i m
      some (record b' { input_sources = set b'.input_sources i (some (attached i fd)) }, m')
    | some i ↦ do
      source ← get_elem? b.input_sources i
      some (record b { input_sources = set b.input_sources i (some (attached i fd)) }, m)
  ]

  -- `doServerReceive`, with what it returns.
  unfoldable pub do_server_receive :
      Backend → M → ℕ → Bool → KeyPacket → Option (Backend × M × Bool)
  do_server_receive b m i remove p =
      let b' = record b { input_sources = set b.input_sources i none } in
      assert (ltb i (length b.input_sources))
      >> (if p.cmd == cmd_code PacketCmd.key
          then (do
            (m', continue) ← on_blue_key i p.key_type p.hardware_key m
            some (b, m', continue))
          else (if remove
              then (do
                assert (p.cmd == cmd_code PacketCmd.remove_device)
                assert (ltb i (length b'.permanent_addrs))
                m' ← on_device_removed i m
                some (
                  record b' { permanent_addrs = set b'.permanent_addrs i empty_addr },
                  m',
                  false,
                ))
              else some (b', m, false)))

-- ===== src/ReceiveSource.antt =====
-- libstmm-input-gtk-bt/src/bluetoothsources.cc, `BlueServerReceiveSource`: the packets of a client
-- as they come in. The slot that handles them is a parameter; a call that stops the program is
-- `none`.
pub mod RoundTrip
mod Tests
use stmm_input_bt.Base.{
  ℕ, ◌+◌, ◌-◌, ◌*◌, ◌/◌, Bool, true, false, not, ◌||◌, ◌&&◌, List, [], ◌∷◌, Option, none, some,
  take, ◌==◌, if◌then◌else◌, ◌>>=◌,
}
use stmm_input_bt.KeyPacket.{KeyPacket, Endian, word, magic1_byte, magic2_byte, PacketCmd, cmd_code}

-- What the poll reported: IO_IN, IO_HUP, IO_ERR, IO_NVAL.
pub record IoFlags : Type 0 where
  pub input : Bool
  pub hang_up : Bool
  pub error : Bool
  pub invalid : Bool

-- `::recv`: the bytes of a message, or an errno.
pub data Received : Type 0 where
  message : List ℕ → Received
  failed : ℕ → Received

-- The file descriptor -1 is `none`.
pub record ReceiveSource : Type 0 where
  pub backend_id : ℕ
  pub client_fd : Option ℕ
  pub destroyed : Bool

-- `aPackets[]`, as the received bytes fill it, and whether bytes are left behind the last packet.
unfoldable pub split : Endian → List ℕ → List KeyPacket × Bool
split e [] = ([], false)
split e (a ∷ b ∷ c ∷ d ∷ w ∷ x ∷ y ∷ z ∷ rest) =
    let (packets, partial) = split e rest in
    (
      record { magic1 = a; magic2 = b; cmd = c; key_type = d; hardware_key = word e w x y z }
          ∷ packets,
      partial,
    )
split e _ = ([], true)

-- How the loop goes on with a packet.
pub data Verdict : Type 0 where
  bad_magic removal no_operation bad_cmd key_event : Verdict

unfoldable pub classify : KeyPacket → Verdict
classify p =
    if not (p.magic1 == magic1_byte) || not (p.magic2 == magic2_byte)
    then bad_magic
    else if p.cmd == cmd_code PacketCmd.remove_device
    then removal
    else if p.cmd == cmd_code PacketCmd.noop
    then no_operation
    else if p.cmd == cmd_code PacketCmd.key
    then key_event
    else bad_cmd

-- `constexpr auto nToRead`, with L2CAP_DEFAULT_MTU as its parameter.
abbrev pub to_read : ℕ → ℕ
to_read mtu = mtu / 8 - 1

abbrev pub Outcome : Type 0 → Type 0
Outcome S = Option (ReceiveSource × S × Bool)

-- `btohl` of the bluetooth headers turns a number from little-endian to the order of the machine.
module _ {S : Type 0} (btohl : ℕ → ℕ) (slot : ℕ → Bool → KeyPacket → S → Option (S × Bool)) where
  -- `closeConnection`, with whether there is a slot to tell.
  unfoldable pub close_connection : ReceiveSource → Bool → Bool → KeyPacket → S → Outcome S
  close_connection source notify remove packet s =
      let closed = record source { client_fd = none; destroyed = true } in
      if notify
      then (do
        (s', continues) ← slot source.backend_id remove packet s
        some (closed, s', continues))
      else some (closed, s, false)

  -- The loop over the packets, each in the order of the machine once it is read. `dummy` is what
  -- the uninitialised packet holds.
  unfoldable pub process : KeyPacket → ReceiveSource → List KeyPacket → Bool → S → Outcome S
  unfolding close_connection
  process dummy source [] true s = close_connection source true false dummy s
  process dummy source [] false s = some (source, s, true)
  process dummy source (raw ∷ rest) partial s =
      let packet = record raw { hardware_key = btohl raw.hardware_key } in
      elim (classify packet) [
        | bad_magic ↦ close_connection source true false packet s
        | removal ↦ close_connection source true true packet s
        | no_operation ↦ process dummy source rest partial s
        | bad_cmd ↦ close_connection source true false packet s
        | key_event ↦ elim (slot source.backend_id false packet s) [
          | none ↦ none
          | some (s', true) ↦ process dummy source rest partial s'
          | some (s', false) ↦ close_connection source false false packet s'
        ]
      ]

  -- `dispatch`; the first argument is the machine's byte order, the second the MTU.
  unfoldable pub dispatch :
      Endian → ℕ → KeyPacket → IoFlags → Received → Bool → ReceiveSource → S → Outcome S
  dispatch e mtu dummy flags received has_slot source s =
      if not has_slot
      then some (source, s, true)
      else if flags.hang_up || flags.error || flags.invalid
      then close_connection source true false dummy s
      else if not flags.input
      then some (source, s, true)
      else elim received [
        | failed n ↦ close_connection source true false dummy s
        | message bytes ↦
            let (packets, partial) = split e (take (to_read mtu * 8) bytes) in
            process dummy source packets partial s
      ]

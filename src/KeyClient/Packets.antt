-- ===== src/KeyClient/Packets.antt =====
-- `sendPacketsFromBufferedKeys`: the packets that are built from the buffered keys.
use stmm_input_bt.Base.{
  ℕ, zero, suc, ◌+◌, List, Option, none, some, get_elem?, set, if◌then◌else◌, ◌>>=◌,
}
use stmm_input_bt.CircularBuffer.{CircularBuffer, is_empty, read}
use stmm_input_bt.KeyPacket.{
  KeyPacket, magic1_byte, magic2_byte, PacketCmd, cmd_code, key_remove_device, key_noop, type_code,
  same_type,
}
use stmm_input_bt.KeyClient.State.{Key, State, removing}

-- A slot of the array after a key went into it: without a key the two last fields stay.
unfoldable pub pack : Key → KeyPacket → KeyPacket
pack (type, key) slot =
    if same_type type key_remove_device
    then record slot {
      magic1 = magic1_byte;
      magic2 = magic2_byte;
      cmd = cmd_code PacketCmd.remove_device;
    }
    else if same_type type key_noop
    then record slot { magic1 = magic1_byte; magic2 = magic2_byte; cmd = cmd_code PacketCmd.noop }
    else record {
      magic1 = magic1_byte;
      magic2 = magic2_byte;
      cmd = cmd_code PacketCmd.key;
      key_type = type_code type;
      hardware_key = key;
    }

-- The new state that the loop computes: a removal among the keys makes it REMOVING.
unfoldable pub next_state : Key → State → State
next_state (type, key) state = if same_type type key_remove_device then removing else state

-- The loop, with the number of its rounds as fuel. A slot outside the array is undefined.
unfoldable pub drain :
    ℕ
    → CircularBuffer Key
    → List KeyPacket
    → ℕ
    → State
    → Option (CircularBuffer Key × List KeyPacket × ℕ × State)
drain zero buffer packets tot state =
    if is_empty buffer then some (buffer, packets, tot, state) else none
drain (suc fuel) buffer packets tot state =
    let rest = (do
      (key, buffer') ← read buffer
      slot ← get_elem? packets tot
      drain fuel buffer' (set packets tot (pack key slot)) (tot + 1) (next_state key state)) in
    if is_empty buffer then some (buffer, packets, tot, state) else rest

-- ===== src/KeyPacket.antt =====
-- stmm-input-btkb/src/keypacket.h and libstmm-input-gtk-bt/src/keypacket.h (the same packet), and
-- the key types of stmm-input-btkb/src/hardwarekey.h.
use stmm_input_bt.Base.{ℕ, ◌+◌, ◌-◌, ◌*◌, ◌/◌, ◌%◌, ◌^◌, ◌<◌, ◌==◌, Bool, List, [], ◌∷◌, ◌++◌}

-- The `char` fields are bytes, the `int32_t` field is its 32 bits.
pub record KeyPacket : Type 0 where
  pub magic1 : ℕ
  pub magic2 : ℕ
  pub cmd : ℕ
  pub key_type : ℕ
  pub hardware_key : ℕ

abbrev pub magic1_byte : ℕ
magic1_byte = b'7'

abbrev pub magic2_byte : ℕ
magic2_byte = b'A'

pub data PacketCmd : Type 0 where
  key noop remove_device : PacketCmd

abbrev pub cmd_code : PacketCmd → ℕ
cmd_code PacketCmd.key = 0
cmd_code PacketCmd.noop = 1
cmd_code PacketCmd.remove_device = 3

pub data KeyInputType : Type 0 where
  key_remove_device key_noop key_press key_release key_release_cancel : KeyInputType

-- The enumerators, as the byte that `static_cast<char>` makes of them.
abbrev pub type_code : KeyInputType → ℕ
type_code key_remove_device = 256 - 77
type_code key_noop = 256 - 33
type_code key_press = 1
type_code key_release = 2
type_code key_release_cancel = 3

abbrev pub same_type : KeyInputType → KeyInputType → Bool
same_type s t = type_code s == type_code t

-- The byte order of a machine.
pub data Endian : Type 0 where
  little big : Endian

-- The four bytes of an `int32_t` in memory.
unfoldable pub word_bytes : Endian → ℕ → List ℕ
word_bytes little n = n % 256 ∷ n / 256 % 256 ∷ n / 65536 % 256 ∷ n / 16777216 ∷ []
word_bytes big n = n / 16777216 ∷ n / 65536 % 256 ∷ n / 256 % 256 ∷ n % 256 ∷ []

-- The `int32_t` that four bytes in memory are.
unfoldable pub word : Endian → ℕ → ℕ → ℕ → ℕ → ℕ
word little w x y z = w + 256 * x + 65536 * y + 16777216 * z
word big w x y z = z + 256 * y + 65536 * x + 16777216 * w

-- The memory of a packet, which is what `::send` hands over.
unfoldable pub to_bytes : Endian → KeyPacket → List ℕ
unfolding word_bytes
to_bytes e p = p.magic1 ∷ p.magic2 ∷ p.cmd ∷ p.key_type ∷ word_bytes e p.hardware_key

-- `sizeof(KeyPacket) * nTotPackets` bytes of the array.
unfoldable pub wire : Endian → List KeyPacket → List ℕ
unfolding to_bytes
wire e [] = []
wire e (p ∷ ps) = to_bytes e p ++ wire e ps

-- The fields are in the range of their types.
pub record IsPacket (p : KeyPacket) : Type 0 where
  pub first_in : p.magic1 < 256
  pub second_in : p.magic2 < 256
  pub cmd_in : p.cmd < 256
  pub key_type_in : p.key_type < 256
  pub hardware_key_in : p.hardware_key < 2 ^ 32

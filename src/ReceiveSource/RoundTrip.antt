-- ===== src/ReceiveSource/RoundTrip.antt =====
-- From the client's keys to the server's slot: what `dispatch` makes of the bytes that
-- `sendPacketsFromBufferedKeys` puts on the wire.
use stmm_input_bt.Base.{
  ℕ, zero, suc, ◌*◌, ◌/◌, ◌%◌, ◌^◌, ◌<◌, ◌≤◌, ◌≡◌, refl, Bool, true, false, List, [], ◌∷◌, Option,
  none, some, arith, length, take, ap, ◌∙◌, ◌⊎◌, inl, inr,
}
use stmm_input_bt.KeyPacket.{
  KeyPacket, Endian, little, word, wire, IsPacket, magic1_byte, magic2_byte, PacketCmd, cmd_code,
  KeyInputType, key_remove_device, key_noop, key_press, key_release, key_release_cancel, type_code,
}
use stmm_input_bt.KeyClient.State.{Key}
use stmm_input_bt.KeyClient.Packets.{pack}
use stmm_input_bt.KeyClient.Drain.{packed}
use stmm_input_bt.ReceiveSource.{
  ReceiveSource, message, split, to_read, classify, Outcome, close_connection, process, dispatch,
}

-- What is documented of `btohl`, on a machine of the byte order `e`.
abbrev pub ReadsLittle : Endian → (ℕ → ℕ) → Type 0
ReadsLittle e btohl =
    (w x y z : ℕ)
    → w < 256
    → x < 256
    → y < 256
    → z < 256
    → btohl (word e w x y z) ≡ word little w x y z

abbrev pub AllPackets : List KeyPacket → Type 0
AllPackets [] = Unit {0}
AllPackets (p ∷ ps) = IsPacket p × AllPackets ps

-- The key codes are values of an `int32_t`.
abbrev pub AllKeys : List Key → Type 0
AllKeys [] = Unit {0}
AllKeys ((type, key) ∷ keys) = (key < 2 ^ 32) × AllKeys keys

pack-IsPacket :
    (t : KeyInputType) (k : ℕ) (p : KeyPacket) → k < 2 ^ 32 → IsPacket p → IsPacket (pack (t, k) p)
unfolding pack
pack-IsPacket key_remove_device k p h v = omega arith
pack-IsPacket key_noop k p h v = omega arith
pack-IsPacket t k p h v = omega arith

packed-AllPackets :
    (keys : List Key) (slots : List KeyPacket)
    → AllKeys keys
    → AllPackets slots
    → AllPackets (packed keys slots)
packed-AllPackets [] slots h v = tt
packed-AllPackets (key ∷ keys) [] h v = tt
packed-AllPackets ((t, k) ∷ keys) (p ∷ slots) h v =
    (pack-IsPacket t k p h.0 v.0, packed-AllPackets keys slots h.1 v.1)

length-wire : (ps : List KeyPacket) → length (wire little ps) ≡ 8 * length ps
unfolding wire
length-wire [] = refl
length-wire (p ∷ ps) = omega (arith, length-wire ps)

length-packed :
    (keys : List Key) (slots : List KeyPacket) → length (packed keys slots) ≤ length keys
length-packed [] slots = omega arith
length-packed (key ∷ keys) [] = omega arith
length-packed (key ∷ keys) (p ∷ slots) = omega (arith, length-packed keys slots)

take_all {ℓ} : {A : Type ℓ} (n : ℕ) (xs : List A) → length xs ≤ n → take n xs ≡ xs
take_all zero [] h = refl
take_all zero (x ∷ xs) h = absurd (omega arith)
take_all (suc n) [] h = refl
take_all (suc n) (x ∷ xs) h = ap (◌∷◌ x) (take_all n xs (omega arith))

-- The four bytes of a little-endian sender, read by `btohl`.
read_word :
    (e : Endian) (btohl : ℕ → ℕ) (n : ℕ)
    → ReadsLittle e btohl
    → n < 2 ^ 32
    → btohl (word e (n % 256) (n / 256 % 256) (n / 65536 % 256) (n / 16777216)) ≡ n
unfolding word
read_word e btohl n reads h =
    reads (n % 256) (n / 256 % 256) (n / 65536 % 256) (n / 16777216) (omega arith) (omega arith)
      (omega arith) (omega arith)
    ∙ omega arith

module _ {S : Type 0} (btohl : ℕ → ℕ) (slot : ℕ → Bool → KeyPacket → S → Option (S × Bool)) where
  -- A key event as the server's slot gets it.
  abbrev pub event : KeyInputType → ℕ → KeyPacket
  event type key = record {
    magic1 = magic1_byte;
    magic2 = magic2_byte;
    cmd = cmd_code PacketCmd.key;
    key_type = type_code type;
    hardware_key = key;
  }

  -- What follows from the answer of the slot to a key event.
  after_slot : ReceiveSource → KeyPacket → (S → Outcome S) → Option (S × Bool) → Outcome S
  after_slot source packet next none = none
  after_slot source packet next (some (s, true)) = next s
  after_slot source packet next (some (s, false)) =
      close_connection btohl slot source false false packet s

  -- What the server is to do on receiving these keys: a key event goes to the slot, and ends the
  -- connection if the slot asks for it; a no-operation is skipped; a removal ends the connection,
  -- and the slot is told of the removal.
  pub deliver : ReceiveSource → List Key → List KeyPacket → S → Outcome S
  deliver source [] slots s = some (source, s, true)
  deliver source (key ∷ keys) [] s = some (source, s, true)
  deliver source ((type, key) ∷ keys) (p ∷ slots) s = elim type [
    | key_remove_device ↦
        close_connection btohl slot source true true (pack (key_remove_device, key) p) s
    | key_noop ↦ deliver source keys slots s
    | other ↦
        after_slot source (event other key) (deliver source keys slots)
          (slot source.backend_id false (event other key) s)
  ]

  slot_cases :
      (o : Option (S × Bool))
      → (o ≡ none) ⊎ ((s : S) × (o ≡ some (s, true))) ⊎ ((s : S) × (o ≡ some (s, false)))
  slot_cases none = inl refl
  slot_cases (some (s, true)) = inr (inl (s, refl))
  slot_cases (some (s, false)) = inr (inr (s, refl))

  -- A key event from the wire.
  process-event :
      (e : Endian) (dummy : KeyPacket) (source : ReceiveSource) (type : KeyInputType) (k : ℕ)
      (rest : List KeyPacket) (partial : Bool) (next : S → Outcome S) (s : S)
      → ReadsLittle e btohl
      → k < 2 ^ 32
      → ((s' : S) → process btohl slot dummy source rest partial s' ≡ next s')
      → process btohl slot dummy source
          (record (event type k) {
            hardware_key = word e (k % 256) (k / 256 % 256) (k / 65536 % 256) (k / 16777216);
          }
            ∷ rest)
          partial
          s
        ≡ after_slot source (event type k) next (slot source.backend_id false (event type k) s)
  unfolding process classify after_slot
  process-event e dummy source type k rest partial next s reads h ih =
      rw (read_word e btohl k reads h)
        (elim (slot_cases (slot source.backend_id false (event type k) s)) [
          | inl stop ↦ rw stop
          | inr (inl (s', go)) ↦ rw go (ih s')
          | inr (inr (s', end)) ↦ rw end
        ])

  -- The loop over the packets of `keys` does what `deliver` says.
  process-packed :
      (e : Endian) (dummy : KeyPacket) (source : ReceiveSource) (keys : List Key)
      (slots : List KeyPacket) (s : S)
      → ReadsLittle e btohl
      → AllKeys keys
      → AllPackets slots
      → length keys ≤ length slots
      → let (packets, partial) = split e (wire little (packed keys slots)) in
        process btohl slot dummy source packets partial s ≡ deliver source keys slots s
  unfolding process split wire classify pack deliver
  process-packed e dummy source [] slots s reads h v n = refl
  process-packed e dummy source (key ∷ keys) [] s reads h v n = absurd (omega arith)
  process-packed e dummy source ((key_remove_device, k) ∷ keys) (p ∷ slots) s reads h v n =
      rw (read_word e btohl p.hardware_key reads v.0.hardware_key_in)
  process-packed e dummy source ((key_noop, k) ∷ keys) (p ∷ slots) s reads h v n =
      process-packed e dummy source keys slots s reads h.1 v.1 (omega arith)
  process-packed e dummy source ((key_press, k) ∷ keys) (p ∷ slots) s reads h v n =
      process-event e dummy source key_press k (split e (wire little (packed keys slots))).0
        (split e (wire little (packed keys slots))).1 (deliver source keys slots) s reads h.0
        (λ s'. process-packed e dummy source keys slots s' reads h.1 v.1 (omega arith))
  process-packed e dummy source ((key_release, k) ∷ keys) (p ∷ slots) s reads h v n =
      process-event e dummy source key_release k (split e (wire little (packed keys slots))).0
        (split e (wire little (packed keys slots))).1 (deliver source keys slots) s reads h.0
        (λ s'. process-packed e dummy source keys slots s' reads h.1 v.1 (omega arith))
  process-packed e dummy source ((key_release_cancel, k) ∷ keys) (p ∷ slots) s reads h v n =
      process-event e dummy source key_release_cancel k
        (split e (wire little (packed keys slots))).0 (split e (wire little (packed keys slots))).1
        (deliver source keys slots) s reads h.0
        (λ s'. process-packed e dummy source keys slots s' reads h.1 v.1 (omega arith))

  -- The whole way: a message of keys that the client packed on a little-endian machine, each code below
  -- 2 ^ 32 and no more of them than slots and than one `recv` can take, has in `dispatch` the effect
  -- that `deliver` says, on a server of either byte order whose `btohl` is as documented.
  pub dispatch-deliver :
      (e : Endian) (mtu : ℕ) (dummy : KeyPacket) (source : ReceiveSource) (keys : List Key)
      (slots : List KeyPacket) (s : S)
      → ReadsLittle e btohl
      → AllKeys keys
      → AllPackets slots
      → length keys ≤ length slots
      → length keys ≤ to_read mtu
      → dispatch btohl slot e mtu dummy
          (record { input = true; hang_up = false; error = false; invalid = false })
          (message (wire little (packed keys slots)))
          true
          source
          s
        ≡ deliver source keys slots s
  unfolding dispatch
  dispatch-deliver e mtu dummy source keys slots s reads h v n m =
      rw
        (take_all (to_read mtu * 8) (wire little (packed keys slots))
          (omega (arith, length-wire (packed keys slots), length-packed keys slots)))
        (process-packed e dummy source keys slots s reads h v n)

-- ===== src/ReceiveSource/Tests.antt =====
-- A batch of keys and a removal on its way from a client to the server.
use stmm_input_bt.Base.{ℕ, ◌≡◌, refl, Bool, true, false, List, [], ◌∷◌, Option, some, arith}
use stmm_input_bt.KeyPacket.{
  KeyPacket, little, wire, IsPacket, key_press, key_noop, key_release, key_remove_device,
}
use stmm_input_bt.KeyClient.State.{Key}
use stmm_input_bt.KeyClient.Drain.{packed}
use stmm_input_bt.ReceiveSource.{ReceiveSource, message, dispatch}
use stmm_input_bt.ReceiveSource.RoundTrip.{ReadsLittle, deliver, dispatch-deliver}

abbrev keys : List Key
keys = (key_press, 30) ∷ (key_noop, 0) ∷ (key_release, 30) ∷ (key_remove_device, 0) ∷ []

abbrev slot_packet : KeyPacket
slot_packet = record { magic1 = 0; magic2 = 0; cmd = 0; key_type = 0; hardware_key = 5 }

abbrev slots : List KeyPacket
slots = slot_packet ∷ slot_packet ∷ slot_packet ∷ slot_packet ∷ []

slot_packet-IsPacket : IsPacket slot_packet
slot_packet-IsPacket = record {
  first_in = omega arith;
  second_in = omega arith;
  cmd_in = omega arith;
  key_type_in = omega arith;
  hardware_key_in = omega arith;
}

-- `btohl` of a little-endian machine.
abbrev same_number : ℕ → ℕ
same_number n = n

little-ReadsLittle : ReadsLittle little same_number
little-ReadsLittle w x y z _ _ _ _ = refl

-- A slot that keeps the codes of the packets.
abbrev keep : ℕ → Bool → KeyPacket → List ℕ → Option (List ℕ × Bool)
keep id remove p s = some (p.hardware_key ∷ s, true)

abbrev served : ReceiveSource
served = record { backend_id = 2; client_fd = some 9; destroyed = false }

dispatch-deliver_example :
    dispatch same_number keep little 672 slot_packet
      (record { input = true; hang_up = false; error = false; invalid = false })
      (message (wire little (packed keys slots)))
      true
      served
      []
    ≡ deliver same_number keep served keys slots []
dispatch-deliver_example =
    dispatch-deliver same_number keep little 672 slot_packet served keys slots [] little-ReadsLittle
      (omega arith, (omega arith, (omega arith, (omega arith, tt))))
      (
        slot_packet-IsPacket,
        (slot_packet-IsPacket, (slot_packet-IsPacket, (slot_packet-IsPacket, tt))),
      )
      (omega arith) (omega arith)

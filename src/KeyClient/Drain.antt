-- ===== src/KeyClient/Drain.antt =====
-- The packet loop of `sendPacketsFromBufferedKeys` empties the buffer into the packets.
use mathlib.Core.List.{append-nil, append_assoc}
use native.Mathlib.Nat.{add-zero}
use native.Mathlib.Numerals.{add-one}
use stmm_input_bt.Base.{
  ℕ, zero, suc, ◌+◌, ◌<◌, ◌≤◌, ◌≡◌, refl, ap, ◌∙◌, List, [], ◌∷◌, ◌++◌, some, length, get_elem?,
  set, take, drop, arith, dec_lt, length-set, get_elem?_total, take-set-suc, drop-set-suc,
  drop_of_get_elem?,
}
use stmm_input_bt.CircularBuffer.{CircularBuffer, capacity, is_empty, read}
use stmm_input_bt.CircularBuffer.Refine.{IsValid, to_list, to_list-empty, read_lem}
use stmm_input_bt.KeyPacket.{KeyPacket}
use stmm_input_bt.KeyClient.State.{Key, State}
use stmm_input_bt.KeyClient.Packets.{pack, next_state, drain}

-- The packets of a list of keys, each in its slot.
abbrev pub packed : List Key → List KeyPacket → List KeyPacket
packed [] slots = []
packed (key ∷ keys) [] = []
packed (key ∷ keys) (slot ∷ slots) = pack key slot ∷ packed keys slots

-- The state that the loop computes from all the keys.
abbrev pub last_state : List Key → State → State
last_state [] state = state
last_state (key ∷ keys) state = last_state keys (next_state key state)

-- What the loop leaves behind.
pub record Drained (buffer : CircularBuffer Key) (packets : List KeyPacket) (tot : ℕ)
    (buffer' : CircularBuffer Key) (packets' : List KeyPacket) : Type 0 where
  pub valid : IsValid buffer'
  pub emptied : buffer'.count ≡ 0
  pub same_capacity : capacity buffer' ≡ capacity buffer
  pub same_slots : length packets' ≡ length packets
  pub built :
      take (tot + buffer.count) packets'
      ≡ take tot packets ++ packed (to_list buffer) (drop tot packets)

Drained-nothing :
    (b : CircularBuffer Key) (ps : List KeyPacket) (n : ℕ)
    → IsValid b
    → b.count ≡ 0
    → Drained b ps n b ps
Drained-nothing b ps n v h = record {
  valid = v;
  emptied = h;
  same_capacity = refl;
  same_slots = refl;
  built = rw (to_list-empty b h, h, add-zero, append-nil);
}

drain_nothing :
    (fuel : ℕ) (b : CircularBuffer Key) (ps : List KeyPacket) (n : ℕ) (state : State)
    → b.count ≡ 0
    → drain fuel b ps n state ≡ some (b, ps, n + b.count, last_state (to_list b) state)
unfolding drain is_empty
drain_nothing zero b ps n state h = ground (arith, to_list-empty b h)
drain_nothing (suc fuel) b ps n state h = ground (arith, to_list-empty b h)

drain_round :
    (fuel : ℕ) (b b1 : CircularBuffer Key) (ps : List KeyPacket) (n : ℕ) (state : State) (x : Key)
    (slot : KeyPacket) {b' : CircularBuffer Key} {ps' : List KeyPacket}
    → 0 < b.count
    → read b ≡ some (x, b1)
    → get_elem? ps n ≡ some slot
    → to_list b ≡ x ∷ to_list b1
    → b1.count + 1 ≡ b.count
    → drain fuel b1 (set ps n (pack x slot)) (n + 1) (next_state x state)
      ≡ some (b', ps', n + 1 + b1.count, last_state (to_list b1) (next_state x state))
    → drain (suc fuel) b ps n state ≡ some (b', ps', n + b.count, last_state (to_list b) state)
unfolding drain is_empty
drain_round fuel b b1 ps n state x slot p got at head count more = ground arith

-- One round of the loop.
Drained-cons :
    (b b1 b' : CircularBuffer Key) (ps ps' : List KeyPacket) (n : ℕ) (x : Key) (slot : KeyPacket)
    → n < length ps
    → get_elem? ps n ≡ some slot
    → to_list b ≡ x ∷ to_list b1
    → capacity b1 ≡ capacity b
    → b1.count + 1 ≡ b.count
    → Drained b1 (set ps n (pack x slot)) (n + 1) b' ps'
    → Drained b ps n b' ps'
Drained-cons b b1 b' ps ps' n x slot inside at head cap count d = record {
  valid = d.valid;
  emptied = d.emptied;
  same_capacity = d.same_capacity ∙ cap;
  same_slots = d.same_slots ∙ length-set ps n (pack x slot);
  built =
      ap (λ k. take k ps') (let e : n + b.count ≡ n + 1 + b1.count = omega arith in e)
      ∙ d.built
      ∙ (rw (
        add-one,
        take-set-suc ps n (pack x slot) inside,
        drop-set-suc ps n (pack x slot),
        append_assoc,
        head,
        drop_of_get_elem? ps n slot at,
      ));
}

-- The packet loop, from a valid buffer and with a slot for each of its keys: with at least as much
-- fuel as there are keys it returns, the buffer is empty, and the slots from the `tot`-th on hold the
-- packets of the keys, oldest first.
pub drain_lem :
    (fuel : ℕ) (b : CircularBuffer Key) (ps : List KeyPacket) (n : ℕ) (state : State)
    → IsValid b
    → b.count ≤ fuel
    → n + b.count ≤ length ps
    → (b' : CircularBuffer Key) × (ps' : List KeyPacket) × (drain fuel b ps n state
        ≡ some (b', ps', n + b.count, last_state (to_list b) state))
      × Drained b ps n b' ps'
drain_lem zero b ps n state v h k =
    let e : b.count ≡ 0 = omega arith in
    (b, ps, drain_nothing zero b ps n state e, Drained-nothing b ps n v e)
drain_lem (suc fuel) b ps n state v h k = elim (dec_lt 0 b.count) [
  | no p ↦
      let e : b.count ≡ 0 = omega arith in
      (b, ps, drain_nothing (suc fuel) b ps n state e, Drained-nothing b ps n v e)
  | yes p ↦
      let (x, b1, got, v1, head, cap, count) = read_lem b v p in
      let (slot, at) = get_elem?_total ps n (omega arith) in
      let (b', ps', more, d) =
        drain_lem fuel b1 (set ps n (pack x slot)) (n + 1) (next_state x state) v1 (omega arith)
          (omega (arith, length-set ps n (pack x slot))) in
      (
        b',
        ps',
        drain_round fuel b b1 ps n state x slot p got at head count more,
        Drained-cons b b1 b' ps ps' n x slot (omega arith) at head cap count d,
      )
]

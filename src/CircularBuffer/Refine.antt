-- ===== src/CircularBuffer/Refine.antt =====
-- circularbuffer.h against a bounded queue, which is a list with the oldest value first.
use stmm_input_bt.Base.{
  ℕ, zero, suc, ◌+◌, ◌-◌, ◌<◌, ◌≤◌, ◌≡◌, refl, sym, List, [], ◌∷◌, ◌++◌, none, some, length,
  get_elem?, set, replicate, arith, length-set, length-replicate, get_elem?_total, get_elem?_out,
  ap, ◌∙◌, lt→ltb, ltb-false_of_le, dec_lt,
}
use native.Mathlib.Numerals.{add-one}
use stmm_input_bt.CircularBuffer.{
  CircularBuffer, create, capacity, clear, next_idx, read, write, peek_value,
}
use stmm_input_bt.CircularBuffer.Window.{
  wrap, window, window-suc, length-window, window-set, get_elem?-window,
}

module _ {ℓ} {A : Type ℓ} where
  -- The indices are in range, and the write index stands just past the values.
  pub record IsValid (b : CircularBuffer A) : Type 0 where
    pub read_in : b.read_idx < length b.items
    pub fits : b.count ≤ length b.items
    pub write_at : b.write_idx ≡ wrap (length b.items) (b.read_idx + b.count)

  abbrev pub to_list : CircularBuffer A → List A
  to_list b = window b.items b.read_idx b.count

  pub to_list-empty : (b : CircularBuffer A) → b.count ≡ 0 → to_list b ≡ []
  unfolding window
  to_list-empty b h = rw h

  pub length-to_list : (b : CircularBuffer A) → IsValid b → length (to_list b) ≡ b.count
  length-to_list b v = length-window b.items b.read_idx b.count v.read_in

  -- A new buffer is valid and empty, and holds as many values as asked for.
  pub create_lem :
      (value : A) (n : ℕ)
      → 0 < n
      → (b : CircularBuffer A) × (create value n ≡ some b)
        × IsValid b
        × (to_list b ≡ [])
        × (capacity b ≡ n)
  unfolding create window
  create_lem value n p = (
    record { count = 0; read_idx = 0; write_idx = 0; items = replicate n value },
    ground arith,
    ground (arith, length-replicate n value),
    refl,
    length-replicate n value,
  )

  -- `clear` of a valid buffer keeps it valid and its capacity, and forgets all values.
  pub clear_lem :
      (b : CircularBuffer A)
      → IsValid b
      → IsValid (clear b) × (to_list (clear b) ≡ []) × (capacity (clear b) ≡ capacity b)
  unfolding clear window
  clear_lem b v = (ground arith, refl, refl)

  pub write-full : (b : CircularBuffer A) (x : A) → b.count ≡ capacity b → write b x ≡ none
  unfolding write
  write-full b x h = ground arith

  -- `write` to a valid buffer that is not full puts the value behind the others, and keeps the buffer
  -- valid and its capacity.
  pub write_lem :
      (b : CircularBuffer A) (x : A)
      → IsValid b
      → b.count < capacity b
      → (b' : CircularBuffer A) × (write b x ≡ some b')
        × IsValid b'
        × (to_list b' ≡ to_list b ++ (x ∷ []))
        × (capacity b' ≡ capacity b)
        × (b'.count ≡ b.count + 1)
  unfolding write
  write_lem b x v h = (
    record b {
      items = set b.items b.write_idx x;
      write_idx = next_idx (length b.items) b.write_idx;
      count = b.count + 1;
    },
    ground arith,
    ground (arith, length-set b.items b.write_idx x),
    rw add-one (window-set b.items x b.read_idx b.count b.write_idx v.read_in h v.write_at),
    length-set b.items b.write_idx x,
    refl,
  )

  -- `window` matches on `suc`, the code tests `m_nCount == 0`.
  window_of_pos :
      (xs : List A) (h n : ℕ) (x : A)
      → 0 < n
      → get_elem? xs h ≡ some x
      → window xs h n ≡ x ∷ window xs (next_idx (length xs) h) (n - 1)
  window_of_pos xs h zero x p e = absurd (omega arith)
  window_of_pos xs h (suc n) x p e =
      window-suc xs h n x e ∙ ap (λ k. x ∷ window xs (next_idx (length xs) h) k) (omega arith)

  pub read-empty : (b : CircularBuffer A) → b.count ≡ 0 → read b ≡ none
  unfolding read
  read-empty b h = ground arith

  -- `read` of a valid buffer that is not empty takes the oldest value, and keeps the buffer valid and
  -- its capacity.
  pub read_lem :
      (b : CircularBuffer A)
      → IsValid b
      → 0 < b.count
      → (x : A) × (b' : CircularBuffer A) × (read b ≡ some (x, b'))
        × IsValid b'
        × (to_list b ≡ x ∷ to_list b')
        × (capacity b' ≡ capacity b)
        × (b'.count + 1 ≡ b.count)
  unfolding read
  read_lem b v h =
      let (x, e) = get_elem?_total b.items b.read_idx v.read_in in
      (
        x,
        record b { read_idx = next_idx (length b.items) b.read_idx; count = b.count - 1 },
        ground arith,
        ground arith,
        window_of_pos b.items b.read_idx b.count x h e,
        refl,
        omega arith,
      )

  -- `peekValue` of a valid buffer reads the value at that position of the list, and stops the program
  -- beyond its end.
  pub peek_value_lem :
      (b : CircularBuffer A) (i : ℕ) → IsValid b → peek_value b i ≡ get_elem? (to_list b) i
  unfolding peek_value
  peek_value_lem b i v = elim (dec_lt i b.count) [
    | yes p ↦
        rw (lt→ltb i b.count p)
          (sym (get_elem?-window b.items b.read_idx b.count i v.read_in v.fits p))
    | no p ↦
        rw (ltb-false_of_le i b.count (omega arith))
          (sym (get_elem?_out (to_list b) i (omega (arith, length-to_list b v))))
  ]

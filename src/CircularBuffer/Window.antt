-- ===== src/CircularBuffer/Window.antt =====
-- The values that the indices of circularbuffer.h select, oldest first.
use stmm_input_bt.Base.{
  ℕ, zero, suc, ◌+◌, ◌-◌, ◌<◌, ◌≤◌, ◌≡◌, refl, List, [], ◌∷◌, ◌++◌, none, some, length, get_elem?,
  set, ltb, if◌then◌else◌, arith, length-set, get_elem?_total, get_elem?-set_self, get_elem?-set_ne,
}
use stmm_input_bt.CircularBuffer.{next_idx}

-- An index below twice the capacity, brought back into range.
abbrev pub wrap : ℕ → ℕ → ℕ
wrap bound i = if ltb i bound then i else i - bound

module _ {ℓ} {A : Type ℓ} where
  -- The `n` values from index `h` on, going round at the end of the vector.
  unfoldable pub window : List A → ℕ → ℕ → List A
  window xs h zero = []
  window xs h (suc n) =
      let rest = window xs (next_idx (length xs) h) n in
      elim (get_elem? xs h) [ none ↦ [] | some x ↦ x ∷ rest ]

  pub window-suc :
      (xs : List A) (h n : ℕ) (x : A)
      → get_elem? xs h ≡ some x
      → window xs h (suc n) ≡ x ∷ window xs (next_idx (length xs) h) n
  unfolding window
  window-suc xs h n x e = rw (e, window)

  pub length-window : (xs : List A) (h n : ℕ) → h < length xs → length (window xs h n) ≡ n
  unfolding window
  length-window xs h zero p = refl
  length-window xs h (suc n) p =
      ground
        (arith, get_elem?_total xs h p, length-window xs (next_idx (length xs) h) n (ground arith))

  -- Writing just past a window extends it by that value.
  pub window-set :
      (xs : List A) (x : A) (h n i : ℕ)
      → h < length xs
      → n < length xs
      → i ≡ wrap (length xs) (h + n)
      → window (set xs i x) h (suc n) ≡ window xs h n ++ (x ∷ [])
  unfolding window
  window-set xs x h zero i ph pn e = ground (arith, get_elem?-set_self xs h x)
  window-set xs x h (suc n) i ph pn e = ground (
    arith,
    get_elem?_total xs h ph,
    get_elem?-set_ne xs i h x (ground arith),
    length-set xs i x,
    window-set xs x (next_idx (length xs) h) n i (ground arith) (omega arith) (ground arith),
  )

  -- The window read by position.
  pub get_elem?-window :
      (xs : List A) (h n i : ℕ)
      → h < length xs
      → n ≤ length xs
      → i < n
      → get_elem? (window xs h n) i ≡ get_elem? xs (wrap (length xs) (h + i))
  unfolding window
  get_elem?-window xs h zero i ph pn p = absurd (omega arith)
  get_elem?-window xs h (suc n) zero ph pn p = ground (arith, get_elem?_total xs h ph)
  get_elem?-window xs h (suc n) (suc i) ph pn p = ground (
    arith,
    get_elem?_total xs h ph,
    get_elem?-window xs (next_idx (length xs) h) n i (ground arith) (omega arith) (omega arith),
    let e : wrap (length xs) (h + suc i) ≡ wrap (length xs) (next_idx (length xs) h + i) =
          ground arith in
        e,
  )

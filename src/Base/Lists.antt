-- ===== src/Base/Lists.antt =====
-- Vectors as lists with native lengths and indices.
use Prim.Native.Nat.{◌-◌, min, ℕ, zero, suc, ◌+◌, ◌<◌, ◌≤◌}
use mathlib.Core.Path.{◌≡◌, refl, ap}
use mathlib.Core.Logic.{◌≢◌, ◌⊎◌, inl, inr}
use mathlib.Core.List.{List, [], ◌∷◌, ◌++◌, map}
use mathlib.Core.Option.{Option, none, some}
use native.Mathlib.Omega.{arith}

module _ {ℓ} {A : Type ℓ} where
  abbrev pub length : List A → ℕ
  length [] = 0
  length (x ∷ xs) = suc (length xs)

  abbrev pub get_elem? : List A → ℕ → Option A
  get_elem? [] i = none
  get_elem? (x ∷ xs) zero = some x
  get_elem? (x ∷ xs) (suc i) = get_elem? xs i

  -- A write out of bounds changes nothing.
  abbrev pub set : List A → ℕ → A → List A
  set [] i v = []
  set (x ∷ xs) zero v = v ∷ xs
  set (x ∷ xs) (suc i) v = x ∷ set xs i v

  abbrev pub take : ℕ → List A → List A
  take zero xs = []
  take (suc n) [] = []
  take (suc n) (x ∷ xs) = x ∷ take n xs

  abbrev pub drop : ℕ → List A → List A
  drop zero xs = xs
  drop (suc n) [] = []
  drop (suc n) (x ∷ xs) = drop n xs

  abbrev pub replicate : ℕ → A → List A
  replicate zero a = []
  replicate (suc n) a = a ∷ replicate n a

module _ {ℓ} {A : Type ℓ} where
  -- `std::vector::resize`
  abbrev pub resize : ℕ → A → List A → List A
  resize n default xs = take n xs ++ replicate (n - length xs) default

  pub length-append : (xs ys : List A) → length (xs ++ ys) ≡ length xs + length ys
  length-append [] ys = omega arith
  length-append (x ∷ xs) ys = omega (arith, length-append xs ys)

  pub length-set : (xs : List A) (i : ℕ) (v : A) → length (set xs i v) ≡ length xs
  length-set [] i v = refl
  length-set (x ∷ xs) zero v = refl
  length-set (x ∷ xs) (suc i) v = ap suc (length-set xs i v)

  pub length-replicate : (n : ℕ) (a : A) → length (replicate n a) ≡ n
  length-replicate zero a = refl
  length-replicate (suc n) a = ap suc (length-replicate n a)

  -- An index in range has an element.
  pub get_elem?_total : (xs : List A) (i : ℕ) → i < length xs → (x : A) × (get_elem? xs i ≡ some x)
  get_elem?_total [] i h = absurd (omega arith)
  get_elem?_total (x ∷ xs) zero h = (x, refl)
  get_elem?_total (x ∷ xs) (suc i) h = get_elem?_total xs i (omega arith)

  pub get_elem?_out : (xs : List A) (i : ℕ) → length xs ≤ i → get_elem? xs i ≡ none
  get_elem?_out [] i h = refl
  get_elem?_out (x ∷ xs) zero h = absurd (omega arith)
  get_elem?_out (x ∷ xs) (suc i) h = get_elem?_out xs i (omega arith)

  pub get_elem?-set_self :
      (xs : List A) (i : ℕ) (v : A) → i < length xs → get_elem? (set xs i v) i ≡ some v
  get_elem?-set_self [] i v h = elim h [ ]
  get_elem?-set_self (x ∷ xs) zero v h = refl
  get_elem?-set_self (x ∷ xs) (suc i) v h = get_elem?-set_self xs i v (omega arith)

  pub get_elem?-set_ne :
      (xs : List A) (i j : ℕ) (v : A) → i ≢ j → get_elem? (set xs i v) j ≡ get_elem? xs j
  get_elem?-set_ne [] i j v h = refl
  get_elem?-set_ne (x ∷ xs) zero zero v h = absurd (h refl)
  get_elem?-set_ne (x ∷ xs) zero (suc j) v h = refl
  get_elem?-set_ne (x ∷ xs) (suc i) zero v h = refl
  get_elem?-set_ne (x ∷ xs) (suc i) (suc j) v h = get_elem?-set_ne xs i j v (λ e. h (ap suc e))

  pub take-set-suc :
      (xs : List A) (n : ℕ) (v : A)
      → n < length xs
      → take (suc n) (set xs n v) ≡ take n xs ++ (v ∷ [])
  take-set-suc [] n v h = elim h [ ]
  take-set-suc (x ∷ xs) zero v h = refl
  take-set-suc (x ∷ xs) (suc n) v h = ap (◌∷◌ x) (take-set-suc xs n v (omega arith))

  pub drop-set-suc : (xs : List A) (n : ℕ) (v : A) → drop (suc n) (set xs n v) ≡ drop (suc n) xs
  drop-set-suc [] n v = refl
  drop-set-suc (x ∷ xs) zero v = refl
  drop-set-suc (x ∷ xs) (suc n) v = drop-set-suc xs n v

  pub drop_of_get_elem? :
      (xs : List A) (n : ℕ) (v : A) → get_elem? xs n ≡ some v → drop n xs ≡ v ∷ drop (suc n) xs
  drop_of_get_elem? [] n v h = cc
  drop_of_get_elem? (x ∷ xs) zero v h = cc
  drop_of_get_elem? (x ∷ xs) (suc n) v h = drop_of_get_elem? xs n v h

  -- What stands where once an element is appended.
  pub get_elem?-append_left :
      (xs : List A) (y : A) (i : ℕ) → i < length xs → get_elem? (xs ++ (y ∷ [])) i ≡ get_elem? xs i
  get_elem?-append_left [] y i h = absurd (omega arith)
  get_elem?-append_left (x ∷ xs) y zero h = refl
  get_elem?-append_left (x ∷ xs) y (suc i) h = get_elem?-append_left xs y i (omega arith)

  pub get_elem?-append_last :
      (xs : List A) (y : A) → get_elem? (xs ++ (y ∷ [])) (length xs) ≡ some y
  get_elem?-append_last [] y = refl
  get_elem?-append_last (x ∷ xs) y = get_elem?-append_last xs y

  -- An index with an element is in range.
  pub get_elem?_bound : (xs : List A) (i : ℕ) (x : A) → get_elem? xs i ≡ some x → i < length xs
  get_elem?_bound [] i x h = cc
  get_elem?_bound (y ∷ ys) zero x h = omega arith
  get_elem?_bound (y ∷ ys) (suc i) x h = omega (arith, get_elem?_bound ys i x h)

  -- Where an element of a vector comes from that was written or appended to.
  pub get_elem?-set_origin :
      (xs : List A) (i j : ℕ) (v a : A)
      → get_elem? (set xs i v) j ≡ some a
      → (j ≡ i) × (a ≡ v) ⊎ (get_elem? xs j ≡ some a)
  get_elem?-set_origin [] i j v a h = inr h
  get_elem?-set_origin (x ∷ xs) zero zero v a h = inl (refl, cc)
  get_elem?-set_origin (x ∷ xs) zero (suc j) v a h = inr h
  get_elem?-set_origin (x ∷ xs) (suc i) zero v a h = inr h
  get_elem?-set_origin (x ∷ xs) (suc i) (suc j) v a h = elim (get_elem?-set_origin xs i j v a h) [
    | inl new ↦ inl (ap suc new.0, new.1)
    | inr old ↦ inr old
  ]

  pub get_elem?-append_origin :
      (xs : List A) (j : ℕ) (v a : A)
      → get_elem? (xs ++ (v ∷ [])) j ≡ some a
      → (j ≡ length xs) × (a ≡ v) ⊎ (get_elem? xs j ≡ some a)
  get_elem?-append_origin [] zero v a h = inl (refl, cc)
  get_elem?-append_origin [] (suc j) v a h = inr h
  get_elem?-append_origin (x ∷ xs) zero v a h = inr h
  get_elem?-append_origin (x ∷ xs) (suc j) v a h = elim (get_elem?-append_origin xs j v a h) [
    | inl new ↦ inl (ap suc new.0, new.1)
    | inr old ↦ inr old
  ]

module _ {ℓ κ} {A : Type ℓ} {B : Type κ} (f : A → B) where
  pub get_elem?-map-some :
      (xs : List A) (i : ℕ) (x : A) → get_elem? xs i ≡ some x → get_elem? (map f xs) i ≡ some (f x)
  get_elem?-map-some [] i x h = cc
  get_elem?-map-some (y ∷ ys) zero x h = cc
  get_elem?-map-some (y ∷ ys) (suc i) x h = get_elem?-map-some ys i x h

  pub get_elem?-map-none :
      (xs : List A) (i : ℕ) → get_elem? xs i ≡ none → get_elem? (map f xs) i ≡ none
  get_elem?-map-none [] i h = refl
  get_elem?-map-none (y ∷ ys) zero h = cc
  get_elem?-map-none (y ∷ ys) (suc i) h = get_elem?-map-none ys i h

module _ {ℓ} {A : Type ℓ} where
  pub length-take : (n : ℕ) (xs : List A) → length (take n xs) ≡ min n (length xs)
  length-take zero xs = ground arith
  length-take (suc n) [] = ground arith
  length-take (suc n) (x ∷ xs) = omega (arith, length-take n xs)

  pub length-resize : (n : ℕ) (default : A) (xs : List A) → length (resize n default xs) ≡ n
  length-resize n default xs = omega (
    arith,
    length-append (take n xs) (replicate (n - length xs) default),
    length-take n xs,
    length-replicate (n - length xs) default,
  )

  pub take_all : (n : ℕ) (xs : List A) → length xs ≤ n → take n xs ≡ xs
  take_all zero [] h = refl
  take_all zero (x ∷ xs) h = absurd (omega arith)
  take_all (suc n) [] h = refl
  take_all (suc n) (x ∷ xs) h = ap (◌∷◌ x) (take_all n xs (omega (arith, h)))

  -- An element of two lists, one after the other.
  pub get_elem?-append_split :
      (xs ys : List A) (i : ℕ) (a : A)
      → get_elem? (xs ++ ys) i ≡ some a
      → (get_elem? xs i ≡ some a) ⊎ ((j : ℕ) × (i ≡ length xs + j) × (get_elem? ys j ≡ some a))
  get_elem?-append_split [] ys i a h = inr (i, omega arith, h)
  get_elem?-append_split (x ∷ xs) ys zero a h = inl h
  get_elem?-append_split (x ∷ xs) ys (suc i) a h = elim (get_elem?-append_split xs ys i a h) [
    | inl first ↦ inl first
    | inr (j, e, second) ↦ inr (j, omega (arith, e), second)
  ]

module _ {ℓ κ} {A : Type ℓ} {B : Type κ} (f : A → B) where
  pub length-map : (xs : List A) → length (map f xs) ≡ length xs
  length-map [] = refl
  length-map (x ∷ xs) = ap suc (length-map xs)

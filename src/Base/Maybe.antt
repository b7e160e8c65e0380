-- ===== src/Base/Maybe.antt =====
-- Computations that may stop the program: `none` is a failed assertion or an access that the
-- language leaves undefined.
use mathlib.Core.Bool.{Bool, true, false}
use mathlib.Core.Option.{Option, none, some}

infixl 5 ◌>>=◌ ◌>>◌
abbrev pub ◌>>=◌ {ℓ κ} : {A : Type ℓ} {B : Type κ} → Option A → (A → Option B) → Option B
none >>= f = none
some a >>= f = f a

abbrev pub ◌>>◌ {ℓ} : {B : Type ℓ} → Option (Unit {0}) → Option B → Option B
m >> k = m >>= λ _. k

-- `assert(b)`
abbrev pub assert : Bool → Option (Unit {0})
assert true = some tt
assert false = none

abbrev pub is_some {ℓ} : {A : Type ℓ} → Option A → Bool
is_some none = false
is_some (some a) = true

-- The computation returns, and its result satisfies the predicate.
abbrev pub Returns {ℓ} : {A : Type ℓ} → (A → Type 0) → Option A → Type 0
Returns P none = ⊥
Returns P (some a) = P a

-- The rule for a sequence of two computations.
pub Returns->>= {ℓ κ} :
    {A : Type ℓ} {B : Type κ} (P : A → Type 0) (Q : B → Type 0) (m : Option A) (f : A → Option B)
    → Returns P m
    → ((a : A) → P a → Returns Q (f a))
    → Returns Q (m >>= f)
Returns->>= P Q none f h k = absurd h
Returns->>= P Q (some a) f h k = k a h

-- Two facts about the result of one computation.
pub Returns-both {ℓ} :
    {A : Type ℓ} (P Q : A → Type 0) (m : Option A)
    → Returns P m
    → Returns Q m
    → Returns (λ a. P a × Q a) m
Returns-both P Q none h k = h
Returns-both P Q (some a) h k = (h, k)

pub Returns-weaken {ℓ} :
    {A : Type ℓ} (P Q : A → Type 0) (m : Option A)
    → Returns P m
    → ((a : A) → P a → Q a)
    → Returns Q m
Returns-weaken P Q none h k = h
Returns-weaken P Q (some a) h k = k a h

-- A family of facts about the result of one computation; `x` is a member of the family.
pub Returns-all {ℓ} :
    {A : Type ℓ} {X : Type 0} (P : X → A → Type 0) (m : Option A) (x : X)
    → ((x : X) → Returns (P x) m)
    → Returns (λ a. (x : X) → P x a) m
Returns-all P none x h = h x
Returns-all P (some a) x h = h

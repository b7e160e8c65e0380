-- ===== src/Util/SignTexts.antt =====
-- A way to write numbers as texts of two bytes, a sign and one character, for the tests.
use stmm_input_bt.Base.{
  ℕ, zero, suc, ◌+◌, ◌-◌, ◌≡◌, ◌≢◌, ap, List, [], ◌∷◌, Option, none, some, ℤ, pos, negsuc, arith,
}
use stmm_input_bt.Util.RoundTrip.{HasNoComma}

abbrev pub write_sign : ℤ → List ℕ
write_sign (pos n) = 0 ∷ (n + 45) ∷ []
write_sign (negsuc n) = 1 ∷ (n + 45) ∷ []

abbrev pub read_sign : List ℕ → Option ℤ
read_sign (zero ∷ n ∷ []) = some (pos (n - 45))
read_sign (suc s ∷ n ∷ []) = some (negsuc (n - 45))
read_sign _ = none

pub write_sign-some_text : (n : ℤ) → write_sign n ≢ []
write_sign-some_text (pos n) e = cc
write_sign-some_text (negsuc n) e = cc

pub write_sign-HasNoComma : (n : ℤ) → HasNoComma (write_sign n)
write_sign-HasNoComma (pos n) = ((λ e. absurd (omega arith)), ((λ e. absurd (omega arith)), tt))
write_sign-HasNoComma (negsuc n) = ((λ e. absurd (omega arith)), ((λ e. absurd (omega arith)), tt))

pub read_sign-write_sign : (n : ℤ) → read_sign (write_sign n) ≡ some n
read_sign-write_sign (pos n) =
    let same : n + 45 - 45 ≡ n = omega arith in ap (λ m. some (pos m)) same
read_sign-write_sign (negsuc n) =
    let same : n + 45 - 45 ≡ n = omega arith in ap (λ m. some (negsuc m)) same

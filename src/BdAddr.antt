-- ===== src/BdAddr.antt =====
-- Bluetooth addresses, `bdaddr_t` of the bluetooth headers: the six bytes, lowest first, as a list.
use stmm_input_bt.Base.{ℕ, Bool, true, false, List, [], ◌∷◌, ◌==◌, ◌&&◌, ◌≡◌, refl, arith, ◌↔◌}

abbrev pub BdAddr : Type 0
BdAddr = List ℕ

-- `bacmp(a, b) == 0`: the bytes are the same.
unfoldable pub same_addr : BdAddr → BdAddr → Bool
same_addr [] [] = true
same_addr (x ∷ xs) (y ∷ ys) = x == y && same_addr xs ys
same_addr _ _ = false

-- `memset(&a, 0, sizeof(a))`
abbrev pub empty_addr : BdAddr
empty_addr = 0 ∷ 0 ∷ 0 ∷ 0 ∷ 0 ∷ 0 ∷ []

pub same_addr_iff : (a b : BdAddr) → (same_addr a b ≡ true) ↔ (a ≡ b)
unfolding same_addr
same_addr_iff [] [] = ((λ _. refl), λ _. refl)
same_addr_iff [] (y ∷ ys) = ground arith
same_addr_iff (x ∷ xs) [] = ground arith
same_addr_iff (x ∷ xs) (y ∷ ys) = ground (arith, same_addr_iff xs ys)

pub same_addr_refl : (a : BdAddr) → same_addr a a ≡ true
same_addr_refl a = (same_addr_iff a a).1 refl

-- ===== src/CircularBuffer/Tests.antt =====
-- A buffer of three keys whose values wrap around, and what its operations do.
use stmm_input_bt.Base.{ℕ, ◌≡◌, refl, [], ◌∷◌, some, ◌++◌, arith}
use stmm_input_bt.CircularBuffer.{CircularBuffer, capacity, write}
use stmm_input_bt.CircularBuffer.Window.{window}
use stmm_input_bt.CircularBuffer.Refine.{IsValid, to_list, write_lem}

abbrev wrapped : CircularBuffer ℕ
wrapped = record { count = 2; read_idx = 2; write_idx = 1; items = 8 ∷ 0 ∷ 7 ∷ [] }

wrapped-IsValid : IsValid wrapped
wrapped-IsValid = record { read_in = omega arith; fits = omega arith; write_at = refl }

wrapped_list : to_list wrapped ≡ 7 ∷ 8 ∷ []
unfolding window
wrapped_list = refl

write_lem_example :
    (b' : CircularBuffer ℕ) × (write wrapped 9 ≡ some b')
    × IsValid b'
    × (to_list b' ≡ to_list wrapped ++ (9 ∷ []))
    × (capacity b' ≡ 3)
    × (b'.count ≡ 3)
write_lem_example = write_lem wrapped 9 wrapped-IsValid (omega arith)

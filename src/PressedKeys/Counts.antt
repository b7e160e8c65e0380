-- ===== src/PressedKeys/Counts.antt =====
-- btkbwindow.cc: the presses and releases that the client was told of, and how one press or release
-- changes them.
use stmm_input_bt.Base.{
  ℕ, ◌+◌, ◌≡◌, Bool, true, false, ◌&&◌, ◌||◌, List, [], ◌∷◌, Option, some, arith, ◌==◌,
  if◌then◌else◌, ap, ◌++◌,
}
use stmm_input_bt.KeyPacket.{key_press, key_release, key_release_cancel, same_type}
use stmm_input_bt.KeyClient.State.{Key}
use stmm_input_bt.PressedKeys.{PressedKey, KeyWindow, is_key_pressed, take_out}
use stmm_input_bt.PressedKeys.Laws.{is_key_pressed-append, is_key_pressed-take_out}

-- A client that keeps the calls of `sendKeyToServer`, the newest first.
unfoldable pub record_call : Key → List Key → Option (List Key)
record_call key calls = some (key ∷ calls)

-- The presses and the releases of a key among the calls.
abbrev pub presses : ℕ → List Key → ℕ
presses k [] = 0
presses k ((type, key) ∷ calls) =
    if key == k && same_type type key_press then presses k calls + 1 else presses k calls

abbrev pub releases : ℕ → List Key → ℕ
releases k [] = 0
releases k ((type, key) ∷ calls) =
    if key == k && (same_type type key_release || same_type type key_release_cancel)
    then releases k calls + 1
    else releases k calls

-- Of each key the server has heard as many releases as presses, and one press more if it is held.
abbrev pub IsBalanced : KeyWindow (List Key) → Type 0
IsBalanced w =
    (k : ℕ)
    → presses k w.client ≡ releases k w.client + (if is_key_pressed k w.pressed then 1 else 0)

-- The window after `tell_client` of `w`.
abbrev pub Told : KeyWindow (List Key) → Key → KeyWindow (List Key) → Type 0
Told w key w' = (w'.pressed ≡ w.pressed) × (w'.client ≡ key ∷ w.client)

same-is_key_pressed :
    (k key : ℕ) (ps : List PressedKey) (b : Bool)
    → (key == k) ≡ true
    → b ≡ is_key_pressed key ps
    → is_key_pressed k ps ≡ b
same-is_key_pressed k key ps b at e = let same : key ≡ k = ground arith in cc

pub more-IsBalanced :
    (w : KeyWindow (List Key)) (q : PressedKey)
    → IsBalanced w
    → true ≡ is_key_pressed q.key w.pressed
    → IsBalanced (record w { pressed = w.pressed ++ (q ∷ []) })
more-IsBalanced w q h already k =
    ground
      (arith, h k, is_key_pressed-append k w.pressed q, same-is_key_pressed k q.key w.pressed true)

pub first-IsBalanced :
    (w w' : KeyWindow (List Key)) (q : PressedKey)
    → IsBalanced w
    → false ≡ is_key_pressed q.key w.pressed
    → Told (record w { pressed = w.pressed ++ (q ∷ []) }) (key_press, q.key) w'
    → IsBalanced w'
first-IsBalanced w w' q h first told k =
    rw (told.0, told.1) ground
      (arith, h k, is_key_pressed-append k w.pressed q, same-is_key_pressed k q.key w.pressed false)

pub still-IsBalanced :
    (w : KeyWindow (List Key)) (q found : PressedKey) (others : List PressedKey)
    → IsBalanced w
    → take_out q w.pressed ≡ some (found, others)
    → is_key_pressed found.key others ≡ true
    → IsBalanced (record w { pressed = others })
still-IsBalanced w q found others h e still k = ground (
  arith,
  h k,
  is_key_pressed-take_out k q found w.pressed others e,
  same-is_key_pressed k found.key others true,
)

pub last-IsBalanced :
    (w w' : KeyWindow (List Key)) (q found : PressedKey) (others : List PressedKey) (cancel : Bool)
    → IsBalanced w
    → take_out q w.pressed ≡ some (found, others)
    → is_key_pressed found.key others ≡ false
    → Told
        (record w { pressed = others })
        (if cancel then key_release_cancel else key_release, found.key)
        w'
    → IsBalanced w'
last-IsBalanced w w' q found others true h e last told k =
    rw (told.0, told.1) ground
      (
        arith,
        h k,
        is_key_pressed-take_out k q found w.pressed others e,
        same-is_key_pressed k found.key others false,
      )
last-IsBalanced w w' q found others false h e last told k =
    rw (told.0, told.1) ground
      (
        arith,
        h k,
        is_key_pressed-take_out k q found w.pressed others e,
        same-is_key_pressed k found.key others false,
      )

pub none_held :
    (w : KeyWindow (List Key))
    → IsBalanced w
    → w.pressed ≡ []
    → (k : ℕ) → presses k w.client ≡ releases k w.client
unfolding is_key_pressed
none_held w h nothing k =
    let held : is_key_pressed k w.pressed ≡ false = ap (is_key_pressed k) nothing in
    ground (arith, h k)

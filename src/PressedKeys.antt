-- ===== src/PressedKeys.antt =====
-- stmm-input-btkb/src/btkbwindow.cc: the keys that are held down by the keyboard, the mouse and the
-- fingers, and what the client is told of them. The client is a parameter, its state `C`; a call
-- that stops the program is `none`.
pub mod Balance
pub mod Counts
pub mod Laws
mod Tests
use stmm_input_bt.Base.{
  ℕ, zero, suc, ◌+◌, ◌-◌, Bool, true, false, ◌&&◌, ◌||◌, List, [], ◌∷◌, ◌++◌, Option, none, some,
  leb, ◌==◌, if◌then◌else◌, ◌>>=◌, ◌>>◌, drop,
}
use stmm_input_bt.KeyPacket.{key_press, key_release, key_release_cancel}
use stmm_input_bt.KeyClient.State.{State, Key}
use stmm_input_bt.KeyServers.{RefreshError}

pub data PressType : Type 0 where
  keyboard mouse touch : PressType

abbrev pub press_code : PressType → ℕ
press_code keyboard = 0
press_code mouse = 1
press_code touch = 2

-- A finger is the pointer of its event sequence, `none` if it is null.
pub record PressedKey : Type 0 where
  pub key : ℕ
  pub type : PressType
  pub finger : Option ℕ

abbrev pub same_finger : Option ℕ → Option ℕ → Bool
same_finger none none = true
same_finger (some a) (some b) = a == b
same_finger _ _ = false

-- The source of two presses is the same.
abbrev pub same_source : PressedKey → PressedKey → Bool
same_source p q = press_code p.type == press_code q.type && same_finger p.finger q.finger

-- A line of the log: what happened to the key of this code; the other lines of the window.
pub data Line : Type 0 where
  pressed_line released_line canceled_line : ℕ → Line
  removal_line : Line
  state_line : State → Line
  refresh_line : RefreshError → Line

abbrev pub log_max_lines : ℕ
log_max_lines = 2000

abbrev pub null_key : ℕ
null_key = 0

pub record KeyWindow (C : Type 0) : Type 0 where
  pub pressed : List PressedKey
  pub log_sent_keys : Bool
  pub log : List Line
  pub tot_lines : ℕ
  pub client : C

-- `isKeyPressed`
unfoldable pub is_key_pressed : ℕ → List PressedKey → Bool
is_key_pressed key [] = false
is_key_pressed key (p ∷ ps) = p.key == key || is_key_pressed key ps

-- The loop of `pressKey`: `none` is its early return, otherwise whether the key is pressed already.
unfoldable pub scan : PressedKey → Bool → List PressedKey → Option Bool
scan q already [] = some already
scan q already (p ∷ ps) =
    let rest = scan q (if p.key == q.key then true else already) ps in
    if p.key == q.key && same_source p q then none else rest

-- `releaseKey`'s search with its `erase`: the first entry that the release is about, and the others.
abbrev pub is_released : PressedKey → PressedKey → Bool
is_released q p = (q.key == null_key || p.key == q.key) && same_source p q

unfoldable pub take_out : PressedKey → List PressedKey → Option (PressedKey × List PressedKey)
take_out q [] = none
take_out q (p ∷ ps) =
    let rest = (do (found, others) ← take_out q ps; some (found, p ∷ others)) in
    if is_released q p then some (p, ps) else rest

module _ {C : Type 0} (is_connected : C → Bool) (send : Key → C → Option C) where
  -- `printStringToLog`
  unfoldable pub print_to_log : KeyWindow C → Line → KeyWindow C
  print_to_log w line =
      let w' =
        if leb log_max_lines w.tot_lines
        then record w { log = drop 1 w.log; tot_lines = w.tot_lines - 1 }
        else w in
      record w' { log = w'.log ++ (line ∷ []); tot_lines = w'.tot_lines + 1 }

  -- The log line, if it is wanted and the client connected, and the call of `sendKeyToServer`.
  unfoldable pub tell_client : KeyWindow C → Line → Key → Option (KeyWindow C)
  unfolding print_to_log
  tell_client w line key = do
    let w' = if w.log_sent_keys && is_connected w.client then print_to_log w line else w
    client ← send key w'.client
    some (record w' { client = client })

  -- `pressKey`
  unfoldable pub press_key : KeyWindow C → PressedKey → Option (KeyWindow C × Bool)
  press_key w q = elim (scan q false w.pressed) [
    | none ↦ some (w, false)
    | some already ↦
        let w' = record w { pressed = w.pressed ++ (q ∷ []) } in
        if already
        then some (w', true)
        else (do w'' ← tell_client w' (pressed_line q.key) (key_press, q.key); some (w'', true))
  ]

  -- `releaseKey`
  unfoldable pub release_key : KeyWindow C → PressedKey → Bool → Option (KeyWindow C × Bool)
  release_key w q cancel = elim (take_out q w.pressed) [
    | none ↦ some (w, false)
    | some (found, others) ↦
        let w' = record w { pressed = others } in
        if is_key_pressed found.key others then some (w', true) else (do
          w'' ←
              tell_client w' (if cancel then canceled_line found.key else released_line found.key)
                (if cancel then key_release_cancel else key_release, found.key)
          some (w'', true))
  ]

  -- The loop of `finalizeKeys` over its copy.
  unfoldable pub release_all : List PressedKey → KeyWindow C → Option (KeyWindow C)
  release_all [] w = some w
  release_all (p ∷ ps) w = do (w', found) ← release_key w p true; release_all ps w'

  -- `finalizeKeys`
  unfoldable pub finalize_keys : KeyWindow C → Option (KeyWindow C)
  unfolding release_all
  finalize_keys w = release_all w.pressed w

-- ===== src/PressedKeys/Tests.antt =====
-- A window that holds a key with a finger and with the keyboard.
use stmm_input_bt.Base.{
  ℕ, suc, ◌≤◌, ◌≡◌, refl, true, false, List, [], ◌∷◌, Option, none, some, arith, Returns,
}
use stmm_input_bt.KeyPacket.{key_press}
use stmm_input_bt.KeyClient.State.{Key}
use stmm_input_bt.PressedKeys.{
  PressedKey, KeyWindow, keyboard, touch, finalize_keys, is_key_pressed,
}
use stmm_input_bt.PressedKeys.Laws.{Sends}
use stmm_input_bt.PressedKeys.Balance.{
  finalize_keys-balance, Action, press, release, finalize, act_all, act_all-IsBalanced,
}
use stmm_input_bt.PressedKeys.Counts.{presses, releases, record_call, IsBalanced}

abbrev by_keyboard : PressedKey
by_keyboard = record { key = 30; type = keyboard; finger = none }

abbrev by_finger : PressedKey
by_finger = record { key = 30; type = touch; finger = some 77 }

-- A client that counts the keys.
abbrev count : Key → ℕ → Option ℕ
count key n = some (suc n)

abbrev AtLeastThree : ℕ → Type 0
AtLeastThree n = 3 ≤ n

count-Sends : Sends AtLeastThree count
count-Sends key n h = omega arith

abbrev counted : KeyWindow ℕ
counted = record {
  pressed = by_keyboard ∷ by_finger ∷ [];
  log_sent_keys = true;
  log = [];
  tot_lines = 0;
  client = 3;
}

abbrev recorded : KeyWindow (List Key)
recorded = record { pressed = []; log_sent_keys = true; log = []; tot_lines = 0; client = [] }

recorded-IsBalanced : IsBalanced recorded
unfolding is_key_pressed
recorded-IsBalanced k = refl

abbrev actions : List Action
actions =
    press by_keyboard
    ∷ press by_finger
    ∷ press by_finger
    ∷ release by_keyboard false
    ∷ finalize
    ∷ []

act_all-IsBalanced_example : Returns IsBalanced (act_all (λ calls. true) actions recorded)
act_all-IsBalanced_example = act_all-IsBalanced (λ calls. true) actions recorded recorded-IsBalanced

abbrev holding : KeyWindow (List Key)
holding = record {
  pressed = by_keyboard ∷ [];
  log_sent_keys = true;
  log = [];
  tot_lines = 0;
  client = (key_press, 30) ∷ [];
}

holding-IsBalanced : IsBalanced holding
unfolding is_key_pressed
holding-IsBalanced k = ground arith

finalize_keys-balance_example :
    Returns
      (λ w'. (w'.pressed ≡ []) × ((k : ℕ) → presses k w'.client ≡ releases k w'.client))
      (finalize_keys (λ calls. true) record_call holding)
finalize_keys-balance_example = finalize_keys-balance (λ calls. true) holding holding-IsBalanced

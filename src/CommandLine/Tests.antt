-- ===== src/CommandLine/Tests.antt =====
-- Numbers, and arguments.
use Prim.Native.String.{String, [], ◌∷◌}
use text.Mathlib.Text.{◌==◌ as str_eq}
use stmm_input_bt.Base.{
  ℕ, ◌+◌, ◌*◌, ◌/◌, ◌^◌, ◌≤◌, ◌≡◌, Bool, false, refl, true, [] as []ᴸ, ◌∷◌ as ◌∷ᴸ◌, Option, none,
  some, pos, ltb, if◌then◌else◌, arith, inr, Returns, List, zero, suc, ap,
}
use stmm_input_bt.BdAddr.{BdAddr}
use stmm_input_bt.KeyServers.{is_valid_port, is_valid_addr}
use stmm_input_bt.CommandLine.{Options, goes_on, btkb_main}
use stmm_input_bt.CommandLine.Bounds.{Holds, AllFit, AreInRange, btkb_main_lem}
use stmm_input_bt.CommandLine.RoundTrip.{AreInts, args_of, btkb_main-args_of}

-- A number is the number of its halves. It reads one text only.
abbrev reads_halves : String → Option ℕ
reads_halves text = if str_eq text "699.5" then some 1399 else some 0

abbrev no_addr : String → Option BdAddr
no_addr text = none

abbrev args : List String
args = "--flush" ∷ᴸ "-i" ∷ᴸ "699.5" ∷ᴸ "--noop" ∷ᴸ "abc" ∷ᴸ []ᴸ

abbrev is_below_halves : ℕ → ℕ → Bool
is_below_halves d n = ltb d (2 * n)

abbrev ceil_halves : ℕ → Option ℕ
ceil_halves d = if ltb ((d + 1) / 2) (2 ^ 31) then some ((d + 1) / 2) else none

halves-round :
    (d least value : ℕ)
    → is_below_halves d least ≡ false
    → ceil_halves d ≡ some value
    → least ≤ value
halves-round d least value above e =
    let it : (d + 1) / 2 ≡ value = ground (arith, e) in ground (arith, above, it)

args-AllFit : AllFit reads_halves ceil_halves args
args-AllFit = (refl, (refl, (refl, (refl, (refl, tt)))))

btkb_main_lem_example :
    Returns
      (Holds (λ o. AreInRange o × (is_valid_port (pos o.l2cap_port) ≡ true)))
      (btkb_main reads_halves is_below_halves ceil_halves no_addr args)
btkb_main_lem_example =
    btkb_main_lem reads_halves is_below_halves ceil_halves no_addr halves-round args args-AllFit

-- A number as so many strokes.
tally : ℕ → String
tally zero = ""
tally (suc n) = "x" ∷ tally n

strokes : String → ℕ
strokes [] = 0
strokes (c ∷ text) = suc (strokes text)

strokes-tally : (n : ℕ) → strokes (tally n) ≡ n
unfolding tally strokes
strokes-tally zero = refl
strokes-tally (suc n) = ap suc (strokes-tally n)

abbrev server_addr : BdAddr
server_addr = 1 ∷ᴸ 2 ∷ᴸ 3 ∷ᴸ 4 ∷ᴸ 5 ∷ᴸ 6 ∷ᴸ []ᴸ

abbrev options : Options
options = record {
  timeout_connect = 200;
  timeout_send = 20;
  interval = 60;
  noop_after = 0;
  periods = 3;
  refresh_flush = true;
  l2cap_port = 4099;
  extra_addr = server_addr;
}

abbrev one_addr : String → Option BdAddr
one_addr text = some server_addr

options-AreInRange : AreInRange options
unfolding is_valid_addr
options-AreInRange = record {
  connect = omega arith;
  send = omega arith;
  interval = omega arith;
  periods = omega arith;
  extra = inr refl;
}

options-AreInts : AreInts options
options-AreInts = record {
  connect = omega arith;
  send = omega arith;
  interval = omega arith;
  noop = omega arith;
  periods = omega arith;
  port = omega arith;
}

server_addr-is-valid : is_valid_addr server_addr ≡ true
unfolding is_valid_addr
server_addr-is-valid = refl

port-is-valid : is_valid_port (pos options.l2cap_port) ≡ true
unfolding is_valid_port
port-is-valid = refl

btkb_main-args_of_example :
    btkb_main
      (λ text. some (strokes text))
      ltb
      (λ d. some d)
      one_addr
      (args_of tally (λ addr. "01:02:03:04:05:06") options)
    ≡ some (goes_on options)
btkb_main-args_of_example =
    btkb_main-args_of (λ text. some (strokes text)) ltb (λ d. some d) one_addr tally
      (λ addr. "01:02:03:04:05:06") (λ n. n) (λ n h. ap some (strokes-tally n)) (λ n least h. refl)
      (λ n h. refl) options options-AreInRange options-AreInts refl server_addr-is-valid
      port-is-valid

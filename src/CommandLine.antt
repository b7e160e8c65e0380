-- ===== src/CommandLine.antt =====
-- stmm-input-btkb/src/main.cc: the options of the program. `strtod` of GLib is `none` if it throws; its
-- numbers are a parameter, with the test whether one is below an integer, and with their rounding up,
-- which is `none` if the result is no `int32_t`.
pub mod Bounds
pub mod RoundTrip
mod Tests
use Prim.Native.String.{String}
use text.Mathlib.Text.{◌==◌ as str_eq}
use stmm_input_bt.Base.{
  ℕ, zero, suc, ◌*◌, Bool, true, false, not, ◌&&◌, ◌||◌, List, [], ◌∷◌, Option, none, some, pos,
  length, ◌==◌, if◌then◌else◌, ◌>>=◌,
}
use stmm_input_bt.BdAddr.{BdAddr, empty_addr}
use stmm_input_bt.KeyServers.{is_valid_port, is_valid_string_addr, get_addr_from_string}

-- How the program ends before it starts.
pub data Exit : Type 0 where
  usage version failure : Exit

pub data Outcome (A : Type 0) : Type 0 where
  ended : Exit → Outcome A
  goes_on : A → Outcome A

-- A computation that is undefined is `none`.
infixl 5 ◌|>◌
abbrev pub ◌|>◌ :
    {A B : Type 0} → Option (Outcome A) → (A → Option (Outcome B)) → Option (Outcome B)
none |> f = none
some (ended e) |> f = some (ended e)
some (goes_on a) |> f = f a

-- The variables of `btkbMain`.
pub record Options : Type 0 where
  pub timeout_connect : ℕ
  pub timeout_send : ℕ
  pub interval : ℕ
  pub noop_after : ℕ
  pub periods : ℕ
  pub refresh_flush : Bool
  pub l2cap_port : ℕ
  pub extra_addr : BdAddr

abbrev pub defaults : Options
defaults = record {
  timeout_connect = 10 * 1000;
  timeout_send = 1 * 1000;
  interval = 500;
  noop_after = 5 * 1000;
  periods = 8;
  refresh_flush = false;
  l2cap_port = 8353;
  extra_addr = empty_addr;
}

unfoldable pub is_option : String → String → String → Bool
is_option option1 option2 arg =
    str_eq option1 arg || (not (str_eq option2 "") && str_eq option2 arg)

-- The arguments that are left, with the value of the variable.
abbrev pub Rest : Type 0 → Type 0
Rest A = List String × A

-- `evalNoArg`
unfoldable pub eval_no_arg : String → String → List String → Bool → Rest Bool
unfolding is_option
eval_no_arg option1 option2 [] var = ([], var)
eval_no_arg option1 option2 (arg ∷ args) var =
    if is_option option1 option2 arg then (args, true) else (arg ∷ args, var)

module _ {D : Type 0} (strtod : String → Option D) (is_below : D → ℕ → Bool) (ceil : D → Option ℕ)
    (str2ba : String → Option BdAddr) where
  -- The value behind an option.
  unfoldable pub int_value : ℕ → List String → Option (Outcome (Rest ℕ))
  int_value least [] = some (ended failure)
  int_value least (arg ∷ args) = elim (strtod arg) [
    | none ↦ some (ended failure)
    | some d ↦
        let rounded = (do value ← ceil d; some (goes_on (args, value))) in
        if is_below d least then some (goes_on (args, least)) else rounded
  ]

  -- `evalIntArg`
  unfoldable pub eval_int_arg : String → String → ℕ → List String → ℕ → Option (Outcome (Rest ℕ))
  unfolding is_option int_value
  eval_int_arg option1 option2 least [] var = some (goes_on ([], var))
  eval_int_arg option1 option2 least (arg ∷ args) var =
      if is_option option1 option2 arg
      then int_value least args
      else some (goes_on (arg ∷ args, var))

  unfoldable pub addr_value : List String → Option (Outcome (Rest BdAddr))
  addr_value [] = some (ended failure)
  addr_value (arg ∷ args) =
      let valid = (do addr ← get_addr_from_string str2ba arg; some (goes_on (args, addr))) in
      if not (is_valid_string_addr str2ba arg) then some (ended failure) else valid

  -- `evalAddrArg`
  unfoldable pub eval_addr_arg :
      String → String → List String → BdAddr → Option (Outcome (Rest BdAddr))
  unfolding is_option addr_value
  eval_addr_arg option1 option2 [] var = some (goes_on ([], var))
  eval_addr_arg option1 option2 (arg ∷ args) var =
      if is_option option1 option2 arg then addr_value args else some (goes_on (arg ∷ args, var))

  -- The options with a value, in the order of the loop.
  unfoldable pub eval_values : List String → Options → Option (Outcome (Rest Options))
  unfolding eval_int_arg eval_addr_arg
  eval_values args o = eval_int_arg "--interval" "-i" 50 args o.interval |> λ (a1, interval).
      eval_int_arg "--connect" "-c" 100 a1 o.timeout_connect |> λ (a2, timeout_connect).
      eval_int_arg "--send" "-s" 10 a2 o.timeout_send |> λ (a3, timeout_send).
      eval_int_arg "--noop" "-n" 0 a3 o.noop_after |> λ (a4, noop_after).
      eval_int_arg "--refresh" "-r" 1 a4 o.periods |> λ (a5, periods).
      eval_int_arg "--port" "-p" 0 a5 o.l2cap_port |> λ (a6, l2cap_port).
      eval_addr_arg "--extra-server" "-e" a6 o.extra_addr |> λ (a7, extra_addr). some (
        goes_on (
          a7,
          record {
            timeout_connect = timeout_connect;
            timeout_send = timeout_send;
            interval = interval;
            noop_after = noop_after;
            periods = periods;
            refresh_flush = o.refresh_flush;
            l2cap_port = l2cap_port;
            extra_addr = extra_addr;
          },
        ))

  -- One round of the loop.
  unfoldable pub eval_args : List String → Options → Option (Outcome (Rest Options))
  unfolding eval_no_arg eval_values
  eval_args args o =
      let (args1, help) = eval_no_arg "--help" "-h" args false in
      let (args2, version_asked) = eval_no_arg "--version" "-v" args1 false in
      let (args3, flush) = eval_no_arg "--flush" "-f" args2 o.refresh_flush in
      let values =
        (eval_values args3 (record o { refresh_flush = flush }) |> λ (args4, o').
        if length args4 == length args then some (ended failure) else some (goes_on (args4, o'))) in
      if help then some (ended usage) else if version_asked then some (ended version) else values

  -- The loop, with the number of its rounds as fuel.
  unfoldable pub eval_loop : ℕ → List String → Options → Option (Outcome Options)
  unfolding eval_args
  eval_loop fuel [] o = some (goes_on o)
  eval_loop zero (arg ∷ args) o = none
  eval_loop (suc fuel) (arg ∷ args) o =
      eval_args (arg ∷ args) o |> λ (args', o'). eval_loop fuel args' o'

  -- `btkbMain` up to the start of the program; the arguments are those behind the program's name.
  unfoldable pub btkb_main : List String → Option (Outcome Options)
  unfolding eval_loop
  btkb_main args = eval_loop (length args) args defaults |> λ o.
      if not (is_valid_port (pos o.l2cap_port)) then some (ended failure) else some (goes_on o)

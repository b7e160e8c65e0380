-- ===== src/CommandLine/RoundTrip.antt =====
-- main.cc: the options that are written as arguments are those that the program starts with.
use Prim.Native.String.{String}
use stmm_input_bt.Base.{
  ℕ, ◌≤◌, ◌<◌, ◌^◌, ◌≡◌, refl, sym, ap, ◌∙◌, Bool, true, false, List, [], ◌∷◌, Option, some, pos,
  ltb, if◌then◌else◌, arith, Bool-cases, inl, inr,
}
use stmm_input_bt.BdAddr.{BdAddr}
use stmm_input_bt.KeyServers.{is_valid_port, is_valid_addr, is_valid_string_addr}
use stmm_input_bt.CommandLine.{
  goes_on, Options, defaults, is_option, eval_no_arg, int_value, eval_int_arg, addr_value,
  eval_addr_arg, eval_values, eval_args, eval_loop, btkb_main,
}
use stmm_input_bt.CommandLine.Bounds.{AreInRange}

module _ (text : ℕ → String) (addr_text : BdAddr → String) where
  -- The options with a value as arguments.
  abbrev pub values_of : Options → List String
  values_of o =
      "--interval"
      ∷ text o.interval
      ∷ "--connect"
      ∷ text o.timeout_connect
      ∷ "--send"
      ∷ text o.timeout_send
      ∷ "--noop"
      ∷ text o.noop_after
      ∷ "--refresh"
      ∷ text o.periods
      ∷ "--port"
      ∷ text o.l2cap_port
      ∷ "--extra-server"
      ∷ addr_text o.extra_addr
      ∷ []

  abbrev pub args_of : Options → List String
  args_of o = if o.refresh_flush then "--flush" ∷ values_of o else values_of o

-- The numbers are of type `int32_t`.
pub record AreInts (o : Options) : Type 0 where
  pub connect : o.timeout_connect < 2 ^ 31
  pub send : o.timeout_send < 2 ^ 31
  pub interval : o.interval < 2 ^ 31
  pub noop : o.noop_after < 2 ^ 31
  pub periods : o.periods < 2 ^ 31
  pub port : o.l2cap_port < 2 ^ 31

module _ {D : Type 0} (strtod : String → Option D) (is_below : D → ℕ → Bool) (ceil : D → Option ℕ)
    (str2ba : String → Option BdAddr) (text : ℕ → String) (addr_text : BdAddr → String)
    (number : ℕ → D) (reads : (n : ℕ) → n < 2 ^ 31 → strtod (text n) ≡ some (number n))
    (compares : (n least : ℕ) → n < 2 ^ 31 → is_below (number n) least ≡ ltb n least)
    (rounds : (n : ℕ) → n < 2 ^ 31 → ceil (number n) ≡ some n) where
  int_value-text :
      (least n : ℕ) (args : List String)
      → least ≤ n
      → n < 2 ^ 31
      → int_value strtod is_below ceil str2ba least (text n ∷ args) ≡ some (goes_on (args, n))
  unfolding int_value
  int_value-text least n args h fits =
      ground (arith, reads n fits, compares n least fits, rounds n fits)

  addr_value-text :
      (addr : BdAddr) (args : List String)
      → str2ba (addr_text addr) ≡ some addr
      → is_valid_addr addr ≡ true
      → addr_value strtod is_below ceil str2ba (addr_text addr ∷ args) ≡ some (goes_on (args, addr))
  unfolding addr_value is_valid_string_addr
  addr_value-text addr args read h = ground (arith, read)

  eval_values-values_of :
      (o o' : Options)
      → AreInRange o
      → AreInts o
      → str2ba (addr_text o.extra_addr) ≡ some o.extra_addr
      → is_valid_addr o.extra_addr ≡ true
      → o'.refresh_flush ≡ o.refresh_flush
      → eval_values strtod is_below ceil str2ba (values_of text addr_text o) o'
        ≡ some (goes_on ([], o))
  unfolding eval_values eval_int_arg eval_addr_arg is_option
  eval_values-values_of o o' v ints read valid same = rw (
    int_value-text 50 o.interval _ v.interval ints.interval,
    int_value-text 100 o.timeout_connect _ v.connect ints.connect,
    int_value-text 10 o.timeout_send _ v.send ints.send,
    int_value-text 0 o.noop_after _ (omega arith) ints.noop,
    int_value-text 1 o.periods _ v.periods ints.periods,
    int_value-text 0 o.l2cap_port _ (omega arith) ints.port,
    addr_value-text o.extra_addr [] read valid,
    same,
  )

  -- One round evaluates all.
  flush-round :
      (o : Options)
      → AreInRange o
      → AreInts o
      → str2ba (addr_text o.extra_addr) ≡ some o.extra_addr
      → is_valid_addr o.extra_addr ≡ true
      → o.refresh_flush ≡ true
      → eval_args strtod is_below ceil str2ba ("--flush" ∷ values_of text addr_text o) defaults
        ≡ some (goes_on ([], o))
  unfolding eval_args eval_no_arg is_option
  flush-round o v ints read valid flush =
      rw
        (
          eval_args,
          eval_values-values_of o (record defaults { refresh_flush = true }) v ints read valid
              (sym flush),
        )
        refl

  keep-round :
      (o : Options)
      → AreInRange o
      → AreInts o
      → str2ba (addr_text o.extra_addr) ≡ some o.extra_addr
      → is_valid_addr o.extra_addr ≡ true
      → o.refresh_flush ≡ false
      → eval_args strtod is_below ceil str2ba (values_of text addr_text o) defaults
        ≡ some (goes_on ([], o))
  unfolding eval_args eval_no_arg is_option
  keep-round o v ints read valid keep =
      rw (eval_args, eval_values-values_of o defaults v ints read valid (sym keep)) refl

  one_round :
      (arg : String) (args : List String) (o : Options)
      → eval_args strtod is_below ceil str2ba (arg ∷ args) defaults ≡ some (goes_on ([], o))
      → is_valid_port (pos o.l2cap_port) ≡ true
      → btkb_main strtod is_below ceil str2ba (arg ∷ args) ≡ some (goes_on o)
  unfolding btkb_main eval_loop
  one_round arg args o e port = rw (e, port) refl

  -- Options in range, with a valid port and a valid address of the extra server, that are written as
  -- arguments, where the functions for texts and numbers read what was written: the program starts
  -- with these options.
  pub btkb_main-args_of :
      (o : Options)
      → AreInRange o
      → AreInts o
      → str2ba (addr_text o.extra_addr) ≡ some o.extra_addr
      → is_valid_addr o.extra_addr ≡ true
      → is_valid_port (pos o.l2cap_port) ≡ true
      → btkb_main strtod is_below ceil str2ba (args_of text addr_text o) ≡ some (goes_on o)
  btkb_main-args_of o v ints read valid port = elim (Bool-cases o.refresh_flush) [
    | inl flush ↦
        let e : args_of text addr_text o ≡ "--flush" ∷ values_of text addr_text o =
          ground (arith, flush) in
        ap (btkb_main strtod is_below ceil str2ba) e
        ∙ one_round "--flush" (values_of text addr_text o) o (flush-round o v ints read valid flush)
            port
    | inr keep ↦
        let e : args_of text addr_text o ≡ values_of text addr_text o = ground (arith, keep) in
        ap (btkb_main strtod is_below ceil str2ba) e
        ∙ one_round "--interval" _ o (keep-round o v ints read valid keep) port
  ]

-- ===== src/CommandLine/Bounds.antt =====
-- main.cc: the loop over the arguments ends, and the options that the program starts with are in range.
use Prim.Native.String.{String}
use stmm_input_bt.Base.{
  ℕ, zero, suc, ◌≤◌, ◌<◌, ◌≡◌, ◌⊎◌, inl, inr, refl, Bool, is_some, true, false, List, [], ◌∷◌,
  Option, none, some, pos, length, arith, Returns, Option-cases, Bool-cases, ℕ_discrete,
}
use stmm_input_bt.BdAddr.{BdAddr, empty_addr}
use stmm_input_bt.KeyServers.{is_valid_port, is_valid_addr, is_valid_string_addr}
use stmm_input_bt.CommandLine.{
  Outcome, ended, goes_on, ◌|>◌, Options, defaults, Rest, eval_no_arg, int_value, eval_int_arg,
  addr_value, eval_addr_arg, eval_values, eval_args, eval_loop, btkb_main,
}

-- What holds if the program does not end.
abbrev pub Holds : {A : Type 0} → (A → Type 0) → Outcome A → Type 0
Holds P (ended e) = Unit
Holds P (goes_on a) = P a

Returns-next :
    {A B : Type 0} (P : A → Type 0) (Q : B → Type 0) (m : Option (Outcome A))
    (f : A → Option (Outcome B))
    → Returns (Holds P) m
    → ((a : A) → P a → Returns (Holds Q) (f a))
    → Returns (Holds Q) (m |> f)
Returns-next P Q none f h k = absurd h
Returns-next P Q (some (ended e)) f h k = tt
Returns-next P Q (some (goes_on a)) f h k = k a h

-- An address of an extra server, or none.
abbrev pub IsExtra : BdAddr → Type 0
IsExtra addr = (addr ≡ empty_addr) ⊎ (is_valid_addr addr ≡ true)

-- The options but for the port, which is tested last.
pub record AreInRange (o : Options) : Type 0 where
  pub connect : 100 ≤ o.timeout_connect
  pub send : 10 ≤ o.timeout_send
  pub interval : 50 ≤ o.interval
  pub periods : 1 ≤ o.periods
  pub extra : IsExtra o.extra_addr

eval_no_arg-length :
    (option1 option2 : String) (args : List String) (var : Bool)
    → length (eval_no_arg option1 option2 args var).0 ≤ length args
unfolding eval_no_arg
eval_no_arg-length option1 option2 [] var = ground arith
eval_no_arg-length option1 option2 (arg ∷ args) var = ground arith

module _ {D : Type 0} (strtod : String → Option D) (ceil : D → Option ℕ) where
  -- Each argument that is a number is one that an `int32_t` can hold when it is rounded up.
  abbrev pub IsInt : Option D → Type 0
  IsInt none = Unit
  IsInt (some d) = is_some (ceil d) ≡ true

  abbrev pub AllFit : List String → Type 0
  AllFit [] = Unit
  AllFit (arg ∷ args) = IsInt (strtod arg) × AllFit args

  -- No argument is added, and the value is in its range.
  abbrev pub Taken : {A : Type 0} → List String → (A → Type 0) → Rest A → Type 0
  Taken args P r = (length r.0 ≤ length args) × P r.1 × AllFit r.0

  eval_no_arg-AllFit :
      (option1 option2 : String) (args : List String) (var : Bool)
      → AllFit args
      → AllFit (eval_no_arg option1 option2 args var).0
  unfolding eval_no_arg
  eval_no_arg-AllFit option1 option2 [] var h = tt
  eval_no_arg-AllFit option1 option2 (arg ∷ args) var h = ground (arith, h)

module _ {D : Type 0} (strtod : String → Option D) (is_below : D → ℕ → Bool) (ceil : D → Option ℕ)
    (str2ba : String → Option BdAddr)
    (rounds : (d : D) (least value : ℕ)
      → is_below d least ≡ false
      → ceil d ≡ some value
      → least ≤ value) where
  int_value-Taken :
      (least : ℕ) (args : List String)
      → AllFit strtod ceil args
      → Returns
          (Holds (Taken strtod ceil args (λ v. least ≤ v)))
          (int_value strtod is_below ceil str2ba least args)
  unfolding int_value
  int_value-Taken least [] h = tt
  int_value-Taken least (arg ∷ args) h = elim (Option-cases (strtod arg)) [
    | inl thrown ↦ ground arith
    | inr (d, number) ↦ elim (Bool-cases (is_below d least)) [
      | inl below ↦ ground arith
      | inr above ↦ elim (Option-cases (ceil d)) [
        | inl huge ↦ absurd (ground (arith, h, number, huge))
        | inr (value, e) ↦ ground (arith, h, e, rounds d least value above e)
      ]
    ]
  ]

  eval_int_arg-Taken :
      (option1 option2 : String) (least : ℕ) (args : List String) (var : ℕ)
      → least ≤ var
      → AllFit strtod ceil args
      → Returns
          (Holds (Taken strtod ceil args (λ v. least ≤ v)))
          (eval_int_arg strtod is_below ceil str2ba option1 option2 least args var)
  unfolding eval_int_arg
  eval_int_arg-Taken option1 option2 least [] var h fit = ground arith
  eval_int_arg-Taken option1 option2 least (arg ∷ args) var h fit =
      ground (arith, fit, int_value-Taken least args fit.1)

  addr_value-Taken :
      (args : List String)
      → AllFit strtod ceil args
      → Returns
          (Holds (Taken strtod ceil args IsExtra))
          (addr_value strtod is_below ceil str2ba args)
  unfolding addr_value is_valid_string_addr
  addr_value-Taken [] h = tt
  addr_value-Taken (arg ∷ args) h = elim (Option-cases (str2ba arg)) [
    | inl bad ↦ ground arith
    | inr (addr, read) ↦ ground arith
  ]

  eval_addr_arg-Taken :
      (option1 option2 : String) (args : List String) (var : BdAddr)
      → IsExtra var
      → AllFit strtod ceil args
      → Returns
          (Holds (Taken strtod ceil args IsExtra))
          (eval_addr_arg strtod is_below ceil str2ba option1 option2 args var)
  unfolding eval_addr_arg
  eval_addr_arg-Taken option1 option2 [] var h fit = ground arith
  eval_addr_arg-Taken option1 option2 (arg ∷ args) var h fit =
      ground (arith, fit, addr_value-Taken args fit.1)

  eval_values-Taken :
      (args : List String) (o : Options)
      → AreInRange o
      → AllFit strtod ceil args
      → Returns
          (Holds (Taken strtod ceil args AreInRange))
          (eval_values strtod is_below ceil str2ba args o)
  unfolding eval_values
  eval_values-Taken args o v fit =
      Returns-next (Taken strtod ceil args (λ x. 50 ≤ x)) (Taken strtod ceil args AreInRange) _ _
        (eval_int_arg-Taken "--interval" "-i" 50 args o.interval v.interval fit)
        (λ r1 h1.
          Returns-next (Taken strtod ceil r1.0 (λ x. 100 ≤ x)) (Taken strtod ceil args AreInRange) _
            _ (eval_int_arg-Taken "--connect" "-c" 100 r1.0 o.timeout_connect v.connect h1.2)
            (λ r2 h2.
              Returns-next (Taken strtod ceil r2.0 (λ x. 10 ≤ x))
                (Taken strtod ceil args AreInRange) _ _
                (eval_int_arg-Taken "--send" "-s" 10 r2.0 o.timeout_send v.send h2.2)
                (λ r3 h3.
                  Returns-next (Taken strtod ceil r3.0 (λ x. 0 ≤ x))
                    (Taken strtod ceil args AreInRange) _ _
                    (eval_int_arg-Taken "--noop" "-n" 0 r3.0 o.noop_after (omega arith) h3.2)
                    (λ r4 h4.
                      Returns-next (Taken strtod ceil r4.0 (λ x. 1 ≤ x))
                        (Taken strtod ceil args AreInRange) _ _
                        (eval_int_arg-Taken "--refresh" "-r" 1 r4.0 o.periods v.periods h4.2)
                        (λ r5 h5.
                          Returns-next (Taken strtod ceil r5.0 (λ x. 0 ≤ x))
                            (Taken strtod ceil args AreInRange) _ _
                            (eval_int_arg-Taken "--port" "-p" 0 r5.0 o.l2cap_port (omega arith)
                              h5.2)
                            (λ r6 h6.
                              Returns-next (Taken strtod ceil r6.0 IsExtra)
                                (Taken strtod ceil args AreInRange) _ _
                                (eval_addr_arg-Taken "--extra-server" "-e" r6.0 o.extra_addr v.extra
                                  h6.2)
                                (λ r7 h7. (
                                  omega (arith, h1.0, h2.0, h3.0, h4.0, h5.0, h6.0, h7.0),
                                  record {
                                    connect = h2.1;
                                    send = h3.1;
                                    interval = h1.1;
                                    periods = h5.1;
                                    extra = h7.1;
                                  },
                                  h7.2,
                                ))))))))

  -- A round that goes on takes an argument.
  eval_args-Taken :
      (args : List String) (o : Options)
      → AreInRange o
      → AllFit strtod ceil args
      → Returns
          (Holds (λ (r : Rest Options).
            (length r.0 < length args) × AreInRange r.1 × AllFit strtod ceil r.0))
          (eval_args strtod is_below ceil str2ba args o)
  unfolding eval_args
  eval_args-Taken args o v fit =
      let help = eval_no_arg "--help" "-h" args false in
      let version_asked = eval_no_arg "--version" "-v" help.0 false in
      let flush = eval_no_arg "--flush" "-f" version_asked.0 o.refresh_flush in
      let o' : Options = record o { refresh_flush = flush.1 } in
      let shorter : length flush.0 ≤ length args = omega (
        arith,
        eval_no_arg-length "--help" "-h" args false,
        eval_no_arg-length "--version" "-v" help.0 false,
        eval_no_arg-length "--flush" "-f" version_asked.0 o.refresh_flush,
      ) in
      let v' : AreInRange o' = record {
        connect = v.connect;
        send = v.send;
        interval = v.interval;
        periods = v.periods;
        extra = v.extra;
      } in
      let fit' : AllFit strtod ceil flush.0 =
        eval_no_arg-AllFit strtod ceil "--flush" "-f" version_asked.0 o.refresh_flush (
          eval_no_arg-AllFit strtod ceil "--version" "-v" help.0 false
            (eval_no_arg-AllFit strtod ceil "--help" "-h" args false fit)) in
      elim (Bool-cases help.1) [
        | inl asked ↦ rw (eval_args, asked) tt
        | inr start ↦ elim (Bool-cases version_asked.1) [
          | inl asked ↦ rw (eval_args, start, asked) tt
          | inr other ↦
              rw (eval_args, start, other)
                (Returns-next (Taken strtod ceil flush.0 AreInRange)
                  (λ (r : Rest Options).
                    (length r.0 < length args) × AreInRange r.1 × AllFit strtod ceil r.0)
                  _ _ (eval_values-Taken flush.0 o' v' fit')
                  (λ r h. elim (ℕ_discrete (length r.0) (length args)) [
                    | yes none_taken ↦ ground arith
                    | no taken ↦ ground arith
                  ]))
        ]
      ]

  eval_loop-AreInRange :
      (fuel : ℕ) (args : List String) (o : Options)
      → length args ≤ fuel
      → AreInRange o
      → AllFit strtod ceil args
      → Returns (Holds AreInRange) (eval_loop strtod is_below ceil str2ba fuel args o)
  unfolding eval_loop
  eval_loop-AreInRange fuel [] o h v fit = v
  eval_loop-AreInRange zero (arg ∷ args) o h v fit = absurd (omega arith)
  eval_loop-AreInRange (suc fuel) (arg ∷ args) o h v fit =
      Returns-next
        (λ (r : Rest Options).
          (length r.0 < length (arg ∷ args)) × AreInRange r.1 × AllFit strtod ceil r.0)
        AreInRange (eval_args strtod is_below ceil str2ba (arg ∷ args) o) _
        (eval_args-Taken (arg ∷ args) o v fit)
        (λ r k. eval_loop-AreInRange fuel r.0 r.1 (omega (arith, k.0)) k.1 k.2)

  -- The evaluation of any arguments ends, with as many rounds as there are arguments at most, where
  -- each argument that `strtod` reads as a number is one that an `int32_t` can hold when rounded up,
  -- and rounding up a number that is not below an integer gives one that is not either. If the program
  -- starts, then its timeouts, its interval and its number of periods are at least their least values,
  -- its port is a valid one, and the extra server's address is a valid one or empty.
  pub btkb_main_lem :
      (args : List String)
      → AllFit strtod ceil args
      → Returns
          (Holds (λ o. AreInRange o × (is_valid_port (pos o.l2cap_port) ≡ true)))
          (btkb_main strtod is_below ceil str2ba args)
  unfolding btkb_main
  btkb_main_lem args fit =
      Returns-next AreInRange (λ o. AreInRange o × (is_valid_port (pos o.l2cap_port) ≡ true))
        (eval_loop strtod is_below ceil str2ba (length args) args defaults) _
        (eval_loop-AreInRange (length args) args defaults (omega arith)
          (record {
            connect = omega arith;
            send = omega arith;
            interval = omega arith;
            periods = omega arith;
            extra = inl refl;
          })
          fit)
        (λ o v. elim (Bool-cases (is_valid_port (pos o.l2cap_port))) [
          | inl valid ↦ rw valid (v, valid)
          | inr bad ↦ rw bad tt
        ])

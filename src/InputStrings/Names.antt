-- ===== src/InputStrings/Names.antt =====
-- inputstrings.cc: the calls of `addKey` that `initKeyMap` makes, each with the enumerator that it
-- names, without its prefix `HK_`, and the text.
mod First
mod Second
mod Third
mod Fourth
use Prim.Native.String.{String}
use stmm_input_bt.Base.{ℕ, List, ◌++◌}
use stmm_input_bt.InputStrings.Names.First.{first_added_keys}
use stmm_input_bt.InputStrings.Names.Second.{second_added_keys}
use stmm_input_bt.InputStrings.Names.Third.{third_added_keys}
use stmm_input_bt.InputStrings.Names.Fourth.{fourth_added_keys}

abbrev pub added_keys : List (String × String)
added_keys = first_added_keys ++ second_added_keys ++ third_added_keys ++ fourth_added_keys

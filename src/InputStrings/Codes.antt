-- ===== src/InputStrings/Codes.antt =====
-- stmm-input-btkb/src/hardwarekey.h: the enumerators of `HARDWARE_KEY`, without their prefix `HK_`,
-- and their values.
mod First
mod Second
mod Third
mod Fourth
use Prim.Native.String.{String}
use stmm_input_bt.Base.{ℕ, List, ◌++◌}
use stmm_input_bt.InputStrings.Codes.First.{first_hardware_keys}
use stmm_input_bt.InputStrings.Codes.Second.{second_hardware_keys}
use stmm_input_bt.InputStrings.Codes.Third.{third_hardware_keys}
use stmm_input_bt.InputStrings.Codes.Fourth.{fourth_hardware_keys}

abbrev pub hardware_keys : List (String × ℕ)
hardware_keys =
    first_hardware_keys ++ second_hardware_keys ++ third_hardware_keys ++ fourth_hardware_keys

-- ===== src/Screens.antt =====
-- stmm-input-btkb/src/keyscreen.cc, weightscreen.cc and addrscreen.cc: the screens in which the user edits
-- a cell's key, a weight, or the address of the server. What the widgets hold is an argument or a member.
-- Buttons has the buttons of btkbwindow.cc.
pub mod Key
pub mod Weight
pub mod KeyLaws
pub mod WeightLaws
pub mod Staging
pub mod StagingLaws
pub mod Buttons
pub mod Showing
pub mod ButtonsLaws
mod Tests
mod ButtonsTests

-- ===== src/KeyboardScreen.antt =====
-- stmm-input-btkb/src/keyboardscreen.cc: the screen with the keyboard. The drawing is not modelled, but
-- the places of the cells are, and which cell is at a point; and what the events of the mouse, of the
-- fingers and of the keys do to the pressed keys of the window. A coordinate is a whole number, since
-- the code compares the coordinates of the events only with whole numbers.
pub mod Cells
pub mod Places
pub mod Search
pub mod HitTest
pub mod Events
pub mod Balance
pub mod Stopped
mod Tests

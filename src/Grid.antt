-- ===== src/Grid.antt =====
-- stmm-input-btkb/src/btkbwindow.cc: the grid of keys that the user edits, and its settings, which are
-- stored and loaded again. The lists that the window shows are rows of texts and numbers.
pub mod State
pub mod Edit
pub mod Config
pub mod Cells
pub mod Wellformed
pub mod Resize
pub mod EditCell
pub mod Load
pub mod RoundTrip
pub mod Tests

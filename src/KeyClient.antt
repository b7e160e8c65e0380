-- ===== src/KeyClient.antt =====
-- stmm-input-btkb/src/btkeyclient.cc: the state machine of the client's connection.
-- The system calls' results are arguments. A failed assertion is `none`, and so is a use of
-- `m_refIntervalTimeout` while it is null.
mod Tests
pub mod Reached
pub mod State
pub mod Packets
pub mod Connect
pub mod Send
pub mod Drain
pub mod Invariant
pub mod Batch
pub mod SendSafety
pub mod Stops
pub mod Delivery
pub mod Pending
pub mod Steps
pub mod Signals
pub mod OnWire

-- ===== src/Xr.antt =====
-- The side of the bridge that faces the firmware: src/xr, and the buffer of src/util.
pub mod Codec
pub mod Outbox
pub mod Session
pub mod Connection
pub mod Server
mod Toy
mod Tests

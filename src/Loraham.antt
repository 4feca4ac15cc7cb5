-- ===== src/Loraham.antt =====
-- src/backend/loraham: the adapter to the LoRaHAM daemon.
pub mod Framing
pub mod Config
pub mod Link
pub mod Paths
pub mod Posix
pub mod Backend

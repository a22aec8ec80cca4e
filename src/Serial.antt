-- ===== src/Serial.antt =====
-- src/serial: shared serial ports, and their backend for Unix.
pub mod State
pub mod Unix
pub mod Port
pub mod Reading
pub mod Line
pub mod Registry
pub mod Sharing
pub mod Sound
pub mod Faults
pub mod Win
mod Tests

-- ===== src/Serial/Sound.antt =====
-- The registry of src/serial/serial_port.c stays in order: one manager for each device, allocated
-- with its port, and every mutex free between calls.
pub mod Entries
pub mod Frame
pub mod Backend
pub mod Linux
pub mod Beside
pub mod Mangers
pub mod Using
pub mod Making
pub mod Freeing
pub mod Answers
pub mod Scripts
mod Tests

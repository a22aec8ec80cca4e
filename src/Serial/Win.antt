-- ===== src/Serial/Win.antt =====
-- src/serial/serial_win.c: the backend over the Windows API.
pub mod State
pub mod Calls
pub mod Config
pub mod Outcomes
pub mod Runs
pub mod Shapes
pub mod Handles
pub mod Faults
mod Tests

-- ===== src/SocketCli.antt =====
-- src/socket: a client of one TCP connection whose calls block.
pub mod State
pub mod Tcp
pub mod Filling
pub mod Streams
pub mod Faults
pub mod Steady
pub mod Thread
pub mod Shapes
pub mod Safety
pub mod Sessions
mod Tests

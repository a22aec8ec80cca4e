-- ===== src/Zsocket.antt =====
-- src/zsocket.c and src/zsocket.h: an event loop over non-blocking sockets.
pub mod Client
pub mod Counters
pub mod Faults
pub mod Invariant
pub mod Io
pub mod Loop
pub mod Close
pub mod Open
pub mod Opening
pub mod Preserve
pub mod Progress
pub mod State
pub mod Steps
pub mod Shutdown
pub mod Buffering
pub mod Receiving
pub mod Sending
pub mod Draining
mod Tests

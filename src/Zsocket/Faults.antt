-- ===== src/Zsocket/Faults.antt =====
-- Where the functions of src/zsocket.c do not do what they are meant to.
pub mod Asserts
pub mod Reads
pub mod CloseCallback
pub mod Turns
pub mod Timeouts
pub mod Siblings

-- ===== src/Zsocket/Tests.antt =====
-- Runs of src/zsocket.c, and the theorems about it at concrete sockets.
mod Data
mod Working
mod Failing
mod Turns

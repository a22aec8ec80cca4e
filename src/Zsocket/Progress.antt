-- ===== src/Zsocket/Progress.antt =====
-- A turn of the event loop of src/zsocket.c comes to an end: its walks over the list of the sockets
-- take no more rounds than the list has entries.
pub mod InLoop
pub mod Closing
pub mod Polling
pub mod Turn

-- ===== src/Zsocket/Preserve.antt =====
-- Every function of src/zsocket.c keeps the invariant of its static variables. Those that read and
-- write, and the callbacks, are shown to keep any invariant that a few elementary steps keep.
pub mod Rules
pub mod Closing
pub mod Opening
pub mod Requests
pub mod Handlers
pub mod Turn

-- ===== src/Lib.antt =====
-- libzio, a C library of byte queues, socket event loops and serial ports.
--
-- The parts of the program. src/qbuf.c is a byte queue in one block of memory. src/zsocket.c is an
-- event loop over non-blocking sockets: it keeps its sockets on a linked list (src/list.h), reads
-- and writes them through two queues of src/qbuf.c each, and calls the application back.
-- src/socket/socket_cli.c is a blocking client, and src/serial a manager of shared serial ports
-- over one backend for Unix and one for Windows; neither uses the first two parts.
--
-- The files. Base holds what the other files share: library names, Boolean tests, list lemmas, the
-- arithmetic of `size_t` (64 bits) and of `int` counters. Effects is the monad of the stateful
-- code; a failed assert, an undefined access and a loop out of fuel are outcomes of their own, so
-- that no theorem has to assume their absence. Effects.Keeps has the rules for invariants and for
-- runs that return, also for runs that are never stuck. Links is the interface of src/list.h, a
-- copy of the Linux kernel's lists: its operations are a parameter, with their documented
-- behaviour as laws; Links.Walk says where a walk over a list goes on when entries have been added
-- or taken out.
--
-- Qbuf models src/qbuf.c, one function for each `qbuf_` function without its prefix; `write` is
-- split into `make_room` and the copy. `malloc`, `calloc` and `realloc` are answers that the
-- caller passes. Qbuf.Valid has the invariant of the struct, Qbuf.Contents the bytes it holds,
-- Qbuf.Moves, Qbuf.Growth and Qbuf.Write what the operations do to them, Qbuf.Queue the abstract
-- queue, Qbuf.Refine the refinement, Qbuf.Memory the allocation and the bounds, Qbuf.Faults what
-- goes wrong.
--
-- Zsocket models src/zsocket.c. Zsocket.State has `struct zsocket` and the static variables
-- (`World`), Zsocket.Open `zsocket_init`, `_connect`, `_listen`, `_accept` and the functions on
-- `sdata`, Zsocket.Close `zsocket_close` and `__zsocket_close` (`release`), Zsocket.Io
-- `_read_start`, `_read_stop`, `_write`, `_handle_recv` and `_handle_send`, Zsocket.Loop `_poll`,
-- `_do_close` and `_loop`. System calls, the clock and memory are answers that the caller passes;
-- the callbacks of the application are a record of arbitrary actions on the world, which may call
-- the library again. Zsocket.Client runs scripts of calls. Zsocket.Invariant, Zsocket.Steps and
-- Zsocket.Preserve carry the invariant through every function, Zsocket.Progress is about the walks
-- over the list in a turn of the loop. Zsocket.Opening says what connecting and listening do,
-- Zsocket.Counters what the counters are meant to do, Zsocket.Shutdown what closing does,
-- Zsocket.Sending, Zsocket.Draining, Zsocket.Buffering and Zsocket.Receiving what becomes of the
-- bytes, and Zsocket.Faults what goes wrong.
--
-- Serial models src/serial. Serial.State has the data, Serial.Port the functions of serial_port.c
-- by their names (`serial_new` is split into `reuse` and `create`), Serial.Unix those of
-- serial_unix.c, each with the answers of the operating system as arguments, and Serial.Win those
-- of serial_win.c. A port and its `serial_rtu_t` are one block, a device name is its number, a
-- baud rate is not negative. Serial.Registry has the search of the list, Serial.Sharing the counts
-- of shared ports, Serial.Line the setting of a line, Serial.Reading the read loop, Serial.Faults
-- what goes wrong. Serial.Sound is about the registry: Serial.Sound.Entries says when it is in
-- order, Serial.Sound.Frame, .Mangers and .Beside which changes leave it so, Serial.Sound.Backend
-- what is asked of a backend and Serial.Sound.Linux that the one for Unix has it,
-- Serial.Sound.Using, .Making and .Freeing go through the functions, Serial.Sound.Scripts through
-- scripts of calls, and Serial.Sound.Answers has what `serial_new` answers. Serial.Win.State has
-- the port as it is on Windows and the calls of the system that succeed, Serial.Win.Calls the
-- functions, on the one port that they are called with; Serial.Win.Config compares the line
-- settings of the two backends, Serial.Win.Outcomes is about opening and closing, Serial.Win.Runs,
-- .Shapes and .Handles about the handles over runs of calls, Serial.Win.Faults about what goes
-- wrong. A mutex that is held stays held, as in a run of one thread.
--
-- SocketCli models src/socket. SocketCli.State has the data of one client, SocketCli.Tcp the
-- backend functions of socket_cli.c, without the leading underscores (the calls `socket_read` and
-- so on only pass on to them) and the two parts of a round of the thread `task_read`, its test
-- (`task_test`) and what follows `recv` (`task_receive`). SocketCli.Streams says what is written,
-- SocketCli.Filling when the loop of `__read_tcp_all` ends, SocketCli.Faults what goes wrong.
-- SocketCli.Thread has the thread as a function from one point of its loop to the next
-- (`task_step`), and the step relation of a client with its thread: each call of the application
-- is one step, but for `__disconnect_tcp`, which is two when it waits in `pthread_join`
-- (`disconnect_start` and `disconnect_rest`), and the thread steps in between. SocketCli.Steady,
-- SocketCli.Shapes and SocketCli.Safety go through the steps, SocketCli.Sessions is about whole
-- sessions. The callback calls no function of the client. Timeouts are not negative.
--
-- Bounds and fuel. A `size_t` has 64 bits, an `int` count is converted through 32 bits, a block
-- has at most 2^63 - 1 bytes, an `fd_set` 1024 descriptors. The loops over the list of sockets and
-- the mutual recursion of `zsocket_close` and `__zsocket_close` run on fuel for every socket on
-- the list when they start, the loops of `unix_serial_read` and `__write_tcp` on fuel for every
-- byte that is asked for, and those of `__read_tcp_all` and `__clean_tcp` on fuel that is an
-- argument. Running out is the outcome `stuck`, which no theorem counts as a return.
--
-- What is not modelled: src/list.h itself, the Windows branches of src/zsocket.c, `setsockopt` and
-- `ioctl`, the contents of `sdata`, overflow of `int` counters, and what is printed. The manager
-- of serial_port.c is modelled over the port of Unix; on Windows it differs from that only in the
-- fields of `serial_rtu_t`.
pub mod Base
pub mod Effects
pub mod Links
pub mod Qbuf
pub mod Serial
pub mod SocketCli
pub mod Zsocket

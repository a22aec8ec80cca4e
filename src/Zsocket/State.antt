-- ===== src/Zsocket/State.antt =====
-- The data of src/zsocket.h and the static variables of src/zsocket.c.
use libzio.Base.{ℕ, suc, Bool, true, false, Option, none, some, List, ◌∷◌, ltb, ◌==◌, if◌then◌else◌}
use libzio.Base.Int.{ℤ}
use libzio.Effects.{ok, fault, M, ◌>>=◌, modify}
use libzio.Qbuf.{Qbuf}

-- The address of a `struct zsocket`, and a function pointer of the application.
abbrev pub Ptr : Type 0
Ptr = ℕ

abbrev pub Fun : Type 0
Fun = ℕ

-- `enum __zsocket_type`
pub data SocketType : Type 0 where
  untyped client server connection : SocketType

abbrev pub same_type : SocketType → SocketType → Bool
same_type untyped untyped = true
same_type client client = true
same_type server server = true
same_type connection connection = true
same_type _ _ = false

-- The bits `ZS_S_*` of the field `state`.
pub record Flags : Type 0 where
  pub eof : Bool
  pub timeout : Bool
  pub read_enable : Bool
  pub write_enable : Bool
  pub read_failed : Bool
  pub write_failed : Bool
  pub rbuf_runout : Bool
  pub wbuf_runout : Bool

abbrev pub no_flags : Flags
no_flags = record {
  eof = false;
  timeout = false;
  read_enable = false;
  write_enable = false;
  read_failed = false;
  write_failed = false;
  rbuf_runout = false;
  wbuf_runout = false;
}

-- `state &= ZS_S_TIMEOUT` and so on: every other bit is cleared.
abbrev pub and_timeout : Flags → Flags
and_timeout f = record no_flags { timeout = f.timeout }

abbrev pub and_read_failed : Flags → Flags
and_read_failed f = record no_flags { read_failed = f.read_failed }

abbrev pub and_write_failed : Flags → Flags
and_write_failed f = record no_flags { write_failed = f.write_failed }

abbrev pub and_rbuf_runout : Flags → Flags
and_rbuf_runout f = record no_flags { rbuf_runout = f.rbuf_runout }

abbrev pub and_wbuf_runout : Flags → Flags
and_wbuf_runout f = record no_flags { wbuf_runout = f.wbuf_runout }

-- `struct sockaddr_in`
pub record SockaddrIn : Type 0 where
  pub sin_port : ℕ
  pub sin_addr : ℕ

abbrev pub no_addr : SockaddrIn
no_addr = record { sin_port = 0; sin_addr = 0 }

-- `struct socket_operations`
pub record SocketOperations : Type 0 where
  pub close_cb : Option Fun
  pub read_cb : Option Fun
  pub connected_cb : Option Fun
  pub connection_cb : Option Fun

abbrev pub no_operations : SocketOperations
no_operations = record {
  close_cb = none;
  read_cb = none;
  connected_cb = none;
  connection_cb = none;
}

-- `struct zsocket`. `fd` is `none` for -1. `sdata` is the size of the block that it points to. The
-- field `node` is the socket's place in the list `socks`.
pub record Zsocket : Type 0 where
  pub fd : Option ℕ
  pub laddr : SockaddrIn
  pub raddr : SockaddrIn
  pub type : SocketType
  pub state : Flags
  pub tick : ℕ
  pub stall : ℕ
  pub rbuf : Option Qbuf
  pub wbuf : Option Qbuf
  pub sdata : Option ℕ
  pub user_data : Option ℕ
  pub s_ops : SocketOperations

-- `struct zsocket_status`
pub record Status : Type 0 where
  pub nr_current : ℤ
  pub nr_total : ℤ
  pub nr_closed : ℤ
  pub nr_current_client : ℤ
  pub nr_current_server : ℤ
  pub nr_current_connection : ℤ

-- What a call does outside the program's memory, in order.
pub data Event : Type 0 where
  sys_shutdown sys_close : Option ℕ → Event
  run_close_cb : Fun → Ptr → Event
  freed freed_rbuf freed_wbuf freed_sdata : Ptr → Event

-- The static variables, the sockets that are allocated, and the events so far, newest first.
pub record World : Type 0 where
  pub lib_init : Bool
  pub in_looping : Bool
  pub socks : List Ptr
  pub nfds_read : ℕ
  pub fds_read : ℕ → Bool
  pub nfds_write : ℕ
  pub fds_write : ℕ → Bool
  pub status : Status
  pub mem : Ptr → Option Zsocket
  pub events : List Event

-- The value of a set or a memory with one place changed.
abbrev pub update {ℓ} : {A : Type ℓ} → (ℕ → A) → ℕ → A → ℕ → A
update f p v q = if p == q then v else f q

-- `*s`, undefined where no socket is allocated.
unfoldable pub load : Ptr → M World Zsocket
load p w = elim (w.mem p) [ none ↦ fault | some s ↦ ok (s, w) ]

-- `*s = z`
abbrev pub put_socket : Ptr → Zsocket → World → World
put_socket p z w = record w { mem = update w.mem p (some z) }

-- A change of `*s`.
unfoldable pub change : Ptr → (Zsocket → Zsocket) → M World (Unit {0})
unfolding load
change p f = do s ← load p; modify (put_socket p (f s))

abbrev pub emit : Event → World → World
emit e w = record w { events = e ∷ w.events }

abbrev pub emit_if : Bool → Event → World → World
emit_if b e w = record w { events = if b then e ∷ w.events else w.events }

-- The bits of an `fd_set`: an access outside them, or at -1, is undefined.
abbrev pub fd_setsize : ℕ
fd_setsize = 1024

abbrev pub fd_in_set : Option ℕ → Bool
fd_in_set none = false
fd_in_set (some fd) = ltb fd fd_setsize

-- `nfds` when `fd` is watched: `if (nfds < fd + 1) nfds = fd + 1;`
abbrev pub raise : ℕ → ℕ → ℕ
raise nfds fd = if ltb nfds (suc fd) then suc fd else nfds

-- `nfds` when `fd` is watched no more: `if (nfds == fd + 1) nfds--;`
abbrev pub lower : ℕ → ℕ → ℕ
lower nfds fd = if nfds == suc fd then fd else nfds

-- `FD_SET` and `FD_CLR` on the two static sets, with the statement on `nfds` before them.
unfoldable pub watch_read_fd : ℕ → World → World
watch_read_fd fd w = record w {
  nfds_read = raise w.nfds_read fd;
  fds_read = update w.fds_read fd true;
}

unfoldable pub unwatch_read_fd : ℕ → World → World
unwatch_read_fd fd w = record w {
  nfds_read = lower w.nfds_read fd;
  fds_read = update w.fds_read fd false;
}

unfoldable pub watch_write_fd : ℕ → World → World
watch_write_fd fd w = record w {
  nfds_write = raise w.nfds_write fd;
  fds_write = update w.fds_write fd true;
}

unfoldable pub unwatch_write_fd : ℕ → World → World
unwatch_write_fd fd w = record w {
  nfds_write = lower w.nfds_write fd;
  fds_write = update w.fds_write fd false;
}

-- The same at a descriptor that may be none or too large for a set.
abbrev pub at_fd : (ℕ → World → World) → Option ℕ → M World (Unit {0})
at_fd f none w = fault
at_fd f (some fd) w = if ltb fd fd_setsize then ok (tt, f fd w) else fault

unfoldable pub watch_read : Option ℕ → M World (Unit {0})
unfolding watch_read_fd
watch_read = at_fd watch_read_fd

unfoldable pub unwatch_read : Option ℕ → M World (Unit {0})
unfolding unwatch_read_fd
unwatch_read = at_fd unwatch_read_fd

unfoldable pub watch_write : Option ℕ → M World (Unit {0})
unfolding watch_write_fd
watch_write = at_fd watch_write_fd

unfoldable pub unwatch_write : Option ℕ → M World (Unit {0})
unfolding unwatch_write_fd
unwatch_write = at_fd unwatch_write_fd

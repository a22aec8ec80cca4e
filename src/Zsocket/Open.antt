-- ===== src/Zsocket/Open.antt =====
-- `zsocket_init`, `zsocket_connect`, `zsocket_listen` and `zsocket_accept` of src/zsocket.c, and the
-- functions on `sdata`. What the operating system answers is an argument.
use libzio.Base.{ℕ, Bool, true, false, not, is_some, Option, none, some, List, if◌then◌else◌}
use libzio.Base.Int.{ℤ, incr}
use libzio.Effects.{M, ◌>>=◌, ◌>>◌, pure, modify, skip, assert}
use libzio.Links.{Links}
use libzio.Zsocket.Close.{close_now}
use libzio.Zsocket.State.{
  Ptr, Fun, untyped, client, server, connection, SockaddrIn, no_addr, no_flags, no_operations,
  Zsocket, Status, World, sys_close, freed, freed_sdata, emit_if, load, change, put_socket, emit,
  watch_read, update,
}

-- The functions of the application that the library calls: code that the repository does not hold.
-- `on_read` is passed the bytes that are stored from the address `buf` on, and the `int` that says
-- how many they are; it returns what the callback does, an `int`.
pub record Callbacks : Type 0 where
  pub on_connected : Fun → Ptr → M World (Unit {0})
  pub on_connection : Fun → Ptr → M World (Unit {0})
  pub on_close : Fun → Ptr → M World (Unit {0})
  pub on_read : Fun → Ptr → List ℕ → ℤ → M World ℤ

-- `STALL_INTERVAL`, in seconds.
abbrev pub stall_interval : ℕ
stall_interval = 300

-- The socket that `zsocket_init` writes.
abbrev pub fresh : Zsocket
fresh = record {
  fd = none;
  laddr = no_addr;
  raddr = no_addr;
  type = untyped;
  state = no_flags;
  tick = 0;
  stall = stall_interval;
  rbuf = none;
  wbuf = none;
  sdata = none;
  user_data = none;
  s_ops = no_operations;
}

-- The block of zero bytes that `calloc` gives for a socket.
abbrev pub blank : Zsocket
blank = record fresh { fd = some 0; stall = 0 }

-- The first call clears the static sets.
abbrev pub init_lib : World → World
init_lib w = if w.lib_init then w else record w {
  nfds_read = 0;
  fds_read = λ _. false;
  nfds_write = 0;
  fds_write = λ _. false;
  lib_init = true;
}

-- `zsocket_init`, at a socket that is on no list.
unfoldable pub init : Ptr → M World (Unit {0})
init p = do modify init_lib; change p (λ _. fresh)

-- What `socket`, `connect`, `getsockname` and `time` give to `zsocket_connect`.
pub record ConnectAnswer : Type 0 where
  pub new_fd : Option ℕ
  pub connected : Bool
  pub local : SockaddrIn
  pub now : ℕ

-- What `socket` and `bind` give to `zsocket_listen`.
pub record ListenAnswer : Type 0 where
  pub new_fd : Option ℕ
  pub bound : Bool

-- What `calloc`, `accept`, `getsockname` and `time` give to `zsocket_accept`.
pub record AcceptAnswer : Type 0 where
  pub block : Option Ptr
  pub new_fd : Option ℕ
  pub remote : SockaddrIn
  pub local : SockaddrIn
  pub now : ℕ

abbrev pub count_opened : Status → Status
count_opened st = record st { nr_total = incr st.nr_total; nr_current = incr st.nr_current }

abbrev pub count_client : Status → Status
count_client st = record (count_opened st) { nr_current_client = incr st.nr_current_client }

abbrev pub count_server : Status → Status
count_server st = record (count_opened st) { nr_current_server = incr st.nr_current_server }

abbrev pub count_connection : Status → Status
count_connection st = record (count_opened st) {
  nr_current_connection = incr st.nr_current_connection;
}

-- `zsocket_sdata_alloc`: `granted` says whether `calloc` succeeds. True for a block.
unfoldable pub sdata_alloc : Ptr → ℕ → Bool → M World Bool
sdata_alloc p size granted = do
  s ← load p
  elim s.sdata [
    | some _ ↦ pure false
    | none ↦
        if granted
        then (do change p (λ z. record z { sdata = some size }); pure true)
        else pure false
  ]

unfoldable pub sdata_free : Ptr → M World (Unit {0})
sdata_free p = do
  s ← load p
  modify (emit_if (is_some s.sdata) (freed_sdata p))
  change p (λ z. record z { sdata = none })

-- `zsocket_sdata`
unfoldable pub sdata_of : Ptr → M World (Option ℕ)
sdata_of p = do s ← load p; pure s.sdata

unfoldable pub iseof : Ptr → M World Bool
iseof p = do s ← load p; pure s.state.eof

module _ (links : Links) where
  open links use {list_add}

  -- True for 0, false for -1. `cb` may be NULL.
  unfoldable pub connect : Callbacks → Ptr → SockaddrIn → Option Fun → ConnectAnswer → M World Bool
  connect cbs p addr cb answer = do
    s ← load p
    assert (not s.state.eof)
    elim answer.new_fd [
      | none ↦ pure false
      | some fd ↦
          if not answer.connected then (do modify (emit (sys_close (some fd))); pure false) else (do
            change p (λ z. record z {
              fd = some fd;
              raddr = addr;
              laddr = answer.local;
              type = client;
              tick = answer.now;
              s_ops = record z.s_ops { connected_cb = cb };
            })
            modify (λ w. record w { socks = list_add p w.socks; status = count_client w.status })
            elim cb [ none ↦ skip | some f ↦ cbs.on_connected f p ]
            pure true)
    ]

  -- True for 0, false for -1.
  unfoldable pub listen : Ptr → SockaddrIn → Option Fun → ListenAnswer → M World Bool
  listen p addr cb answer = do
    s ← load p
    assert (not s.state.eof)
    assert (is_some cb)
    elim answer.new_fd [
      | none ↦ pure false
      | some fd ↦
          if not answer.bound then (do modify (emit (sys_close (some fd))); pure false) else (do
            change p (λ z. record z {
              fd = some fd;
              laddr = addr;
              type = server;
              s_ops = record z.s_ops { connection_cb = cb };
            })
            modify (λ w. record w { socks = list_add p w.socks; status = count_server w.status })
            watch_read (some fd)
            change p (λ z. record z { state = record z.state { read_enable = true } })
            pure true)
    ]

  -- The address of the new connection, or NULL.
  unfoldable pub accept : Ptr → AcceptAnswer → M World (Option Ptr)
  accept p answer = do
    s ← load p
    assert (not s.state.eof)
    elim answer.block [
      | none ↦ pure none
      | some conn ↦ do
        modify (put_socket conn blank)
        init conn
        elim answer.new_fd [
          | none ↦ do
            close_now links conn
            modify (λ w. record w { mem = update w.mem conn none })
            modify (emit (freed conn))
            pure none
          | some fd ↦ do
            change conn (λ z. record z {
              fd = some fd;
              raddr = answer.remote;
              laddr = answer.local;
              type = connection;
              tick = answer.now;
            })
            modify (λ w. record w {
              socks = list_add conn w.socks;
              status = count_connection w.status;
            })
            pure (some conn)
        ]
    ]

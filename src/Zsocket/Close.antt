-- ===== src/Zsocket/Close.antt =====
-- `zsocket_close` and `__zsocket_close` of src/zsocket.c, which call one another: closing a server
-- closes every socket on its port. Fuel counts the sockets that may still be taken off the list.
use libzio.Base.{ℕ, zero, suc, true, not, is_some, Option, none, ◌==◌, if◌then◌else◌, length}
use libzio.Base.Int.{incr, decr}
use libzio.Effects.{fault, stuck, M, ◌>>=◌, ◌>>◌, get, modify, skip, assert}
use libzio.Links.{Links, Cursor, entry, head, poison}
use libzio.Zsocket.State.{
  Ptr, Fun, SocketType, untyped, client, server, connection, same_type, Zsocket, Status, World,
  no_operations, sys_shutdown, sys_close, freed_rbuf, freed_wbuf, freed_sdata, emit_if, load,
  change, emit, unwatch_read, unwatch_write,
}

-- The counter of the sockets of one type, when one of them is closed.
abbrev count_type : SocketType → Status → Status
count_type untyped st = st
count_type client st = record st { nr_current_client = decr st.nr_current_client }
count_type server st = record st { nr_current_server = decr st.nr_current_server }
count_type connection st = record st { nr_current_connection = decr st.nr_current_connection }

-- The counters when a socket of type `t` is closed.
unfoldable pub count_closed : SocketType → Status → Status
count_closed t st =
    count_type t (record st { nr_closed = incr st.nr_closed; nr_current = decr st.nr_current })

-- `zsocket_close(s, cb)`, where `release` is `__zsocket_close`.
unfoldable pub close_with : (Ptr → M World (Unit {0})) → Ptr → Option Fun → M World (Unit {0})
close_with release p cb = do
  s ← load p
  assert (not s.state.eof)
  unwatch_read s.fd
  unwatch_write s.fd
  change p (λ z. record z {
    state = record z.state { eof = true };
    s_ops = record z.s_ops { close_cb = cb };
  })
  modify (λ w. record w { status = count_closed s.type w.status })
  w ← get
  if w.in_looping then skip else release p

-- The socket when `__zsocket_close` is done with it.
abbrev pub cleared : Zsocket → Zsocket
cleared s = record s {
  fd = none;
  rbuf = none;
  wbuf = none;
  sdata = none;
  user_data = none;
  s_ops = no_operations;
}

-- `__zsocket_close` frees the two buffers and the block of the application, where there are any.
abbrev pub free_held : Ptr → Zsocket → World → World
free_held p s w =
    emit_if (is_some s.sdata) (freed_sdata p)
      (emit_if (is_some s.wbuf) (freed_wbuf p) (emit_if (is_some s.rbuf) (freed_rbuf p) w))

module _ (links : Links) where
  open links use {list_del, list_first, list_next}

  -- The loop of `__zsocket_close` over `socks` from a cursor on, for at most so many rounds.
  unfoldable pub siblings : (Ptr → M World (Unit {0})) → ℕ → ℕ → Cursor → M World (Unit {0})
  siblings release rounds port head = skip
  siblings release rounds port poison = λ w. fault
  siblings release zero port (entry q) = λ w. stuck
  siblings release (suc rounds) port (entry q) = do
    s ← load q
    (if s.laddr.sin_port == port then close_with release q none else skip)
    w ← get
    siblings release rounds port (list_next q w.socks)

  unfoldable pub close_siblings : (Ptr → M World (Unit {0})) → Zsocket → M World (Unit {0})
  close_siblings release s =
      if same_type s.type server
      then (do w ← get; siblings release (length w.socks) s.laddr.sin_port (list_first w.socks))
      else skip

  -- `__zsocket_close`
  unfoldable pub release : ℕ → Ptr → M World (Unit {0})
  release zero p = λ w. stuck
  release (suc fuel) p = do
    s ← load p
    assert s.state.eof
    assert (not (same_type s.type untyped))
    modify (λ w. record w { socks = list_del p w.socks })
    close_siblings (release fuel) s
    s ← load p
    modify (λ w. free_held p s (emit (sys_close s.fd) (emit (sys_shutdown s.fd) w)))
    change p cleared

  -- `__zsocket_close` and `zsocket_close` with fuel for every socket on the list.
  unfoldable pub close_now : Ptr → M World (Unit {0})
  close_now p w = release (suc (length w.socks)) p w

  unfoldable pub close : Ptr → Option Fun → M World (Unit {0})
  close p cb = close_with close_now p cb

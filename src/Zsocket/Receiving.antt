-- ===== src/Zsocket/Receiving.antt =====
-- The bytes that `zsocket_handle_recv` of src/zsocket.c takes in, shows to the read callback and
-- keeps.
use libzio.Base.{
  subst, ℕ, true, false, ◌^◌, ◌<◌, ◌≢◌, ◌≤◌, ◌≡◌, some, List, ◌++◌, arith, length, length-take,
  take, drop, min,
}
use libzio.Effects.{ok, and_then}
use libzio.Effects.Keeps.{Returns, Returns-and_then}
use libzio.Links.{Links}
use libzio.Qbuf.{Qbuf, used, spare}
use libzio.Qbuf.Contents.{contents}
use libzio.Qbuf.Valid.{used_lem, IsValid}
use libzio.Zsocket.Faults.Asserts.{load-ok, change-ok, update_self}
use libzio.Zsocket.Io.{
  RecvAnswer, recv_bytes, recv_callback, take_in, set_rbuf, rw_max, recv_grow, handle_recv,
  recv_start,
}
use libzio.Zsocket.Open.{Callbacks}
use libzio.Zsocket.Sending.{typed-same}
use libzio.Zsocket.State.{Ptr, Fun, Zsocket, World, put_socket, untyped, server}
use libzio.Zsocket.Buffering.{
  Counts, take_in-append, take_in-size, not_server, callback-Held, grow-WithRoom, after_callback,
  Held, WithRoom,
}

module _ (p : Ptr) (w : World) {s : Zsocket} {q : Qbuf} (at : w.mem p ≡ some s)
    (has : s.rbuf ≡ some q) (valid : IsValid q) (answer : RecvAnswer) (bytes : List ℕ)
    (got : answer.pending ≡ some bytes) where
  -- The read buffer when the bytes have been received.
  abbrev filled : Qbuf
  filled = take_in q (take (min (spare q) rw_max) bytes)

  abbrev received : Zsocket
  received = record s { rbuf = some filled; tick = answer.now }

  recv_bytes-ok :
      recv_bytes p answer w ≡ ok (tt, put_socket p received (put_socket p (set_rbuf filled s) w))
  unfolding recv_bytes
  recv_bytes-ok =
      rw (load-ok p w at, has, got, change-ok p (set_rbuf filled) w at)
        (change-ok p (λ z. record z { tick = answer.now }) (put_socket p (set_rbuf filled s) w)
          (update_self w.mem p (some (set_rbuf filled s))))

  handle_recv-leads :
      (Q : World → Type 0) (links : Links) (cbs : Callbacks)
      → s.type ≢ untyped
      → s.type ≢ server
      → s.state.eof ≡ false
      → s.state.read_enable ≡ true
      → Returns
          (λ _. Q)
          (and_then
            (recv_callback cbs p (put_socket p received (put_socket p (set_rbuf filled s) w)))
            λ _. recv_grow links p answer.memory)
      → Returns (λ _. Q) (handle_recv links cbs p answer w)
  unfolding handle_recv recv_start
  handle_recv-leads Q links cbs typed plain open_ reads h =
      rw
        (
          load-ok p w at,
          typed-same s.type typed,
          open_,
          reads,
          not_server s.type plain,
          load-ok p w at,
          has,
          recv_bytes-ok,
        )
        h

  -- When `recv` gives `bytes` to an open client or connection that reads, whose read buffer is valid
  -- and has a size that is not 0 and less than 2^31, the read callback only returns a count, which may
  -- depend on the bytes that it is shown, and `realloc` gives what it is asked for: then, of the
  -- bytes that the callback had not done with and behind them those that came, as many as fit, just
  -- so many are dropped as it says at these bytes, or all; the buffer has room for more; the socket
  -- stays as it was but for the buffer and the tick, and no system call but `recv` is made.
  pub handle_recv-unread :
      (links : Links) (cbs : Callbacks) (f : Fun) (consumed : List ℕ → ℕ) (fill : ℕ → ℕ)
      → s.type ≢ untyped
      → s.type ≢ server
      → s.state.eof ≡ false
      → s.state.read_enable ≡ true
      → s.s_ops.read_cb ≡ some f
      → Counts cbs f p consumed
      → 0 < q.size
      → q.size < 2 ^ 31
      → answer.memory.grow ≡ some fill
      → let all = contents q ++ take (min (spare q) rw_max) bytes in
        Returns
          (λ _.
            WithRoom p
              (record s { tick = answer.now })
              w
              (drop (min (consumed all) (length all)) all))
          (handle_recv links cbs p answer w)
  handle_recv-unread links cbs f consumed fill typed plain open_ reads set calls positive small
        given =
      let fits : length (take (min (spare q) rw_max) bytes) ≤ spare q =
        omega (arith, length-take (min (spare q) rw_max) bytes) in
      let (taken, still) = take_in-append (take (min (spare q) rw_max) bytes) valid fits in
      let size : filled.size ≡ q.size = take_in-size q _ in
      let few : used filled < 2 ^ 31 = omega (arith, size, used_lem still, still.within) in
      let v = put_socket p received (put_socket p (set_rbuf filled s) w) in
      let here : v.mem p ≡ some received =
        update_self (put_socket p (set_rbuf filled s) w).mem p (some received) in
      let z = record s { tick = answer.now } in
      let all = contents q ++ take (min (spare q) rw_max) bytes in
      let left = drop (min (consumed all) (length all)) all in
      handle_recv-leads (WithRoom p z w left) links cbs typed plain open_ reads (
        Returns-and_then (λ _. Held p z w filled.size left) (λ _. WithRoom p z w left) _ _
          (subst
            (λ l.
              Returns (λ _. Held p z w filled.size (after_callback consumed l))
                (recv_callback cbs p v))
            taken (callback-Held cbs p f consumed v z filled here set still few calls))
          λ _ u held.
            grow-WithRoom links p answer.memory w u z filled.size left fill (omega (arith, size))
              (omega (arith, size)) given held)

-- ===== src/Zsocket/Io.antt =====
-- Reading and writing in src/zsocket.c: `zsocket_read_start`, `zsocket_read_stop`, `zsocket_write`,
-- `zsocket_handle_recv` and `zsocket_handle_send`.
use libzio.Base.{
  ℕ, ◌-◌, ◌^◌, Bool, true, false, not, Option, none, some, List, ◌==◌, if◌then◌else◌, length, take,
  drop, min, double_size, is_some,
}
use libzio.Base.Int.{ℤ, pos, negsuc, as_int, int_result}
use libzio.Effects.{abort, fault, M, ◌>>=◌, ◌>>◌, pure, skip, assert}
use libzio.Links.{Links}
use libzio.Qbuf
use libzio.Qbuf.{
  Qbuf, Grant, used, spare, rawbuf_in_pos, rawbuf_out_pos, policy_less_spare, overwrite,
}
use libzio.Zsocket.Close.{close}
use libzio.Zsocket.Open.{Callbacks}
use libzio.Zsocket.State.{
  Ptr, Fun, untyped, server, same_type, Zsocket, World, load, change, watch_read, unwatch_read,
  watch_write, and_read_failed, and_write_failed, and_rbuf_runout, and_wbuf_runout,
}

unfoldable pub read_start : Ptr → Option Fun → M World (Unit {0})
read_start p cb = do
  s ← load p
  assert (not s.state.eof)
  assert (not s.state.read_enable)
  assert (is_some cb)
  watch_read s.fd
  change p (λ z. record z {
    state = record z.state { read_enable = true };
    s_ops = record z.s_ops { read_cb = cb };
  })

unfoldable pub read_stop : Ptr → M World (Unit {0})
read_stop p = do
  s ← load p
  assert (not s.state.eof)
  assert s.state.read_enable
  unwatch_read s.fd
  change p (λ z. record z {
    state = record z.state { read_enable = false };
    s_ops = record z.s_ops { read_cb = none };
  })

-- The two answers of `calloc` to `qbuf_new`, and that of `realloc`.
pub record Memory : Type 0 where
  pub self_ok : Bool
  pub block_ok : Bool
  pub grow : Grant

-- `READ_BUF_SIZE` and `WRITE_BUF_SIZE`
abbrev pub buf_size : ℕ
buf_size = 8192

abbrev new_buf : Memory → Option Qbuf
new_buf m = (Qbuf.new buf_size m.self_ok m.block_ok 0).0

-- An access to a buffer, undefined if the pointer is NULL.
abbrev pub at_buf : {A : Type 0} → Option Qbuf → (Qbuf → M World A) → M World A
at_buf none f w = fault
at_buf (some q) f w = f q w

abbrev pub set_wbuf : Qbuf → Zsocket → Zsocket
set_wbuf q z = record z { wbuf = some q }

abbrev pub set_rbuf : Qbuf → Zsocket → Zsocket
set_rbuf q z = record z { rbuf = some q }

-- The part of `zsocket_write` that starts the writing. False if there is no memory for `wbuf`.
unfoldable pub write_start : Ptr → Memory → M World Bool
write_start p m = do
  s ← load p
  if s.state.write_enable then pure true else (do
    assert (not (is_some s.wbuf))
    elim (new_buf m) [
      | none ↦ pure false
      | some q ↦ do
        change p (set_wbuf q)
        watch_write s.fd
        change p (λ z. record z { state = record z.state { write_enable = true } })
        pure true
    ])

-- The result -1 is the largest `size_t`.
unfoldable pub write : Ptr → List ℕ → Memory → M World ℕ
write p buf m = do
  s ← load p
  assert (not s.state.eof)
  started ← write_start p m
  if not started then pure (2 ^ 64 - 1) else (do
    s ← load p
    at_buf s.wbuf λ q. do let (n, q') = Qbuf.write q buf m.grow; change p (set_wbuf q'); pure n)

-- What `recv` and `time` give to `zsocket_handle_recv`, and what `calloc` and `realloc` answer.
-- `pending` is `none` for -1; else the bytes that wait, none of them when the peer has closed.
pub record RecvAnswer : Type 0 where
  pub pending : Option (List ℕ)
  pub now : ℕ
  pub memory : Memory

-- A system call transfers at most so many bytes.
abbrev pub rw_max : ℕ
rw_max = 2 ^ 31 - 4096

-- The buffer when `recv` has written `bytes` at `rawbuf + offset_in`, and the offset has moved.
abbrev pub take_in : Qbuf → List ℕ → Qbuf
take_in q bytes =
    if length bytes == 0
    then q
    else (Qbuf.offset_in_head (record q { rawbuf = overwrite (rawbuf_in_pos q) bytes q.rawbuf })
        (length bytes)).1

-- The bytes from `rawbuf + offset_out` on that a callback is shown.
abbrev pub shown : Qbuf → List ℕ
shown q = take (used q) (drop (rawbuf_out_pos q) q.rawbuf)

-- `qbuf_offset_out_head` and then `qbuf_collect`, when some bytes are done with.
unfoldable pub release_bytes : Qbuf → ℕ → Qbuf
release_bytes q n = (Qbuf.collect (Qbuf.offset_out_head q n).1 policy_less_spare).1

-- The lazy allocation of `rbuf`. False if there is no memory for it.
unfoldable pub recv_start : Ptr → Memory → M World Bool
recv_start p m = do
  s ← load p
  if is_some s.rbuf
      then pure true
      else elim (new_buf m) [ none ↦ pure false | some q ↦ do change p (set_rbuf q); pure true ]

-- The call of `recv` and the update of `tick`.
unfoldable pub recv_bytes : Ptr → RecvAnswer → M World (Unit {0})
recv_bytes p answer = do
  s ← load p
  at_buf s.rbuf λ q. elim answer.pending [
    | none ↦ change p (λ z. record z { state = and_read_failed z.state })
    | some bytes ↦ change p (set_rbuf (take_in q (take (min (spare q) rw_max) bytes)))
  ]
  change p (λ z. record z { tick = answer.now })

-- `assert(nr >= 0)`, and `nr` cut down to `len`.
abbrev pub checked_count : ℤ → ℕ → M World ℕ
checked_count (pos n) len = pure (min n len)
checked_count (negsuc n) len = λ w. abort

-- `s->s_ops.read_cb(s, buf, len)`, where `len` becomes an `int`, and the bytes that it is done with.
unfoldable pub recv_callback : Callbacks → Ptr → M World (Unit {0})
recv_callback cbs p = do
  s ← load p
  elim s.s_ops.read_cb [
    | none ↦ (λ w. abort)
    | some f ↦ at_buf s.rbuf λ q. do
      nr ← cbs.on_read f p (shown q) (as_int (used q))
      n ← checked_count (int_result nr) (used q)
      s ← load p
      if n == 0 then skip else at_buf s.rbuf λ q. change p (set_rbuf (release_bytes q n))
  ]

abbrev fail_rbuf : Zsocket → Zsocket
fail_rbuf z = record z { state = and_rbuf_runout z.state }

-- What `send` transfers of a buffer when the system could take `n` bytes.
abbrev pub sendable : Qbuf → ℕ → ℕ
sendable q n = min n (min (used q) rw_max)

module _ (links : Links) where
  -- The growth of a full `rbuf`, and the close when it fails.
  unfoldable pub recv_grow : Ptr → Memory → M World (Unit {0})
  recv_grow p m = do
    s ← load p
    at_buf s.rbuf λ q.
        if spare q == 0
        then (do
          let (granted, q') = Qbuf.realloc q (double_size q.size) m.grow
          change p (set_rbuf q')
          (if granted then skip else (change p fail_rbuf >> close links p none)))
        else skip

  unfoldable pub handle_recv : Callbacks → Ptr → RecvAnswer → M World (Unit {0})
  handle_recv cbs p answer = do
    s ← load p
    assert (not (same_type s.type untyped))
    assert (not s.state.eof)
    assert s.state.read_enable
    if same_type s.type server
        then elim s.s_ops.connection_cb [ none ↦ (λ w. abort) | some f ↦ cbs.on_connection f p ]
        else (do
          started ← recv_start p answer.memory
          if not started
              then skip
              else (do recv_bytes p answer; recv_callback cbs p; recv_grow p answer.memory))

  -- The part of `zsocket_handle_send` behind the call of `send` on the buffer `q`. The answer is
  -- `none` for -1, and else the number of bytes that the system could take.
  unfoldable pub sent : Ptr → Qbuf → Option ℕ → M World (Unit {0})
  sent p q none = do
    change p (λ z. record z { state = and_write_failed z.state })
    close links p none
  sent p q (some n) =
      let nsend = sendable q n in
      if nsend == 0 then skip else (do
        let q' = release_bytes q nsend
        change p (set_wbuf q')
        if spare q' == 0
            then (do
              change p (λ z. record z { state = and_wbuf_runout z.state })
              close links p none)
            else skip)

  unfoldable pub handle_send : Ptr → Option ℕ → M World (Unit {0})
  handle_send p answer = do
    s ← load p
    assert (not (same_type s.type untyped))
    assert (not s.state.eof)
    assert s.state.write_enable
    elim s.wbuf [ none ↦ (λ w. abort) | some q ↦ if used q == 0 then skip else sent p q answer ]

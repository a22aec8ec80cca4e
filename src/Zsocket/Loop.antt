-- ===== src/Zsocket/Loop.antt =====
-- One turn of the event loop of src/zsocket.c: `zsocket_poll`, `zsocket_do_close`, `zsocket_loop`.
use libzio.Base.{
  ℕ, zero, suc, ◌-◌, ◌*◌, ◌/◌, ◌%◌, Bool, true, false, ◌&&◌, ◌||◌, not, Option, none, some, List,
  ltb, ◌==◌, if◌then◌else◌, length,
}
use libzio.Effects.{fault, stuck, M, ◌>>=◌, ◌>>◌, pure, get, modify, skip}
use libzio.Links.{Links, Cursor, entry, head, poison}
use libzio.Zsocket.Close.{close, close_now}
use libzio.Zsocket.Io.{RecvAnswer, handle_recv, handle_send}
use libzio.Zsocket.Open.{Callbacks}
use libzio.Zsocket.State.{
  Ptr, connection, same_type, World, load, change, emit, update, fd_in_set, and_timeout,
  run_close_cb, freed,
}

-- What `select` gives: 0; -1, with whether `errno` is EINTR; or the number of bits that are set and
-- the descriptors that are ready.
pub data Selected : Type 0 where
  idle : Selected
  failed : Bool → Selected
  ready : ℕ → (ℕ → Bool) → (ℕ → Bool) → Selected

-- `select` gets the bound of the descriptors and the seconds and microseconds of the timeout.
pub record PollAnswer : Type 0 where
  pub select : ℕ → ℕ → ℕ → Selected
  pub recv : Ptr → RecvAnswer
  pub send : Ptr → Option ℕ

-- The sets that `select` leaves: of the descriptors that were watched, below `nfds`, those ready.
pub record FdSets : Type 0 where
  pub for_read : ℕ → Bool
  pub for_write : ℕ → Bool

-- `nfds_read > nfds_write ? nfds_read : nfds_write`
abbrev pub nfds : World → ℕ
nfds w = if ltb w.nfds_write w.nfds_read then w.nfds_read else w.nfds_write

abbrev pub fd_sets : World → (ℕ → Bool) → (ℕ → Bool) → FdSets
fd_sets w r s = record {
  for_read = λ fd. r fd && (w.fds_read fd && ltb fd (nfds w));
  for_write = λ fd. s fd && (w.fds_write fd && ltb fd (nfds w));
}

-- `FD_ISSET(pos->fd, &set)`
unfoldable pub fd_isset : Option ℕ → (ℕ → Bool) → M World Bool
fd_isset none set w = fault
fd_isset (some fd) set w = if fd_in_set (some fd) then pure (set fd) w else fault

module _ (links : Links) where
  open links use {list_first, list_next}

  -- `list_next_entry`, which may start at the head.
  abbrev pub step : Cursor → List Ptr → Cursor
  step (entry q) l = list_next q l
  step head l = list_first l
  step poison l = poison

module _ (links : Links) (cbs : Callbacks) where
  open links use {list_first, list_next}

  -- The body of the loop of `zsocket_poll` at one socket. True if it was handled.
  unfoldable pub poll_one : PollAnswer → FdSets → Ptr → M World Bool
  poll_one answer sets p = do
    s ← load p
    readable ← fd_isset s.fd sets.for_read
    (if readable then handle_recv links cbs p (answer.recv p) else skip)
    s ← load p
    writable ← fd_isset s.fd sets.for_write
    (if writable then handle_send links p (answer.send p) else skip)
    pure (readable || writable)

  -- The loop, for at most so many rounds; `selected` is `nfds_selected`, which counts handled
  -- sockets down.
  unfoldable pub poll_all : PollAnswer → FdSets → ℕ → ℕ → Cursor → M World (Unit {0})
  poll_all answer sets rounds selected head = skip
  poll_all answer sets rounds selected poison = λ w. fault
  poll_all answer sets zero selected (entry p) = λ w. stuck
  poll_all answer sets (suc rounds) selected (entry p) = do
    handled ← poll_one answer sets p
    w ← get
    if handled && selected == 1
        then skip
        else poll_all answer sets rounds (if handled then selected - 1 else selected)
            (list_next p w.socks)

  -- True for 0, false for -1. `timeout` is in milliseconds.
  unfoldable pub poll : ℕ → PollAnswer → M World Bool
  poll timeout answer = do
    w ← get
    elim (answer.select (nfds w) (timeout / 1000) (timeout % 1000 * 1000)) [
      | idle ↦ pure true
      | failed eintr ↦ pure eintr
      | ready n r s ↦ do
        poll_all answer (fd_sets w r s) (length w.socks) n (list_first w.socks)
        pure true
    ]

  -- The last part of the body of `zsocket_do_close`, at a socket that is at its end.
  unfoldable pub finish : Ptr → M World (Unit {0})
  finish p = do
    close_now links p
    s ← load p
    elim s.s_ops.close_cb [
      | none ↦ skip
      | some f ↦ do modify (emit (run_close_cb f p)); cbs.on_close f p
    ]
    s ← load p
    if same_type s.type connection
        then (do modify (λ w. record w { mem = update w.mem p none }); modify (emit (freed p)))
        else skip

  -- The body of the loop of `zsocket_do_close`; `now` is what `time` gives there.
  unfoldable pub do_close_one : ℕ → Ptr → M World (Unit {0})
  do_close_one now p = do
    s ← load p
    (if same_type s.type connection && ltb s.stall (now - s.tick)
        then (do change p (λ z. record z { state = and_timeout z.state }); close links p none)
        else skip)
    s ← load p
    if s.state.eof then finish p else skip

  -- `list_for_each_entry_safe` from the cursors `pos` and `n` on.
  unfoldable pub do_close_all : (Ptr → ℕ) → ℕ → Cursor → Cursor → M World (Unit {0})
  do_close_all clock rounds head n = skip
  do_close_all clock rounds poison n = λ w. fault
  do_close_all clock zero (entry p) n = λ w. stuck
  do_close_all clock (suc rounds) (entry p) n = do
    do_close_one (clock p) p
    w ← get
    do_close_all clock rounds n (step links n w.socks)

  unfoldable pub do_close : (Ptr → ℕ) → M World (Unit {0})
  do_close clock w =
      let pos = list_first w.socks in
      do_close_all clock (length w.socks) pos (step links pos w.socks) w

  -- True for 0, false for -1.
  unfoldable pub loop : ℕ → PollAnswer → (Ptr → ℕ) → M World Bool
  loop timeout answer clock = do
    modify (λ w. record w { in_looping = true })
    polled ← poll timeout answer
    if not polled
        then pure false
        else (do do_close clock; modify (λ w. record w { in_looping = false }); pure true)

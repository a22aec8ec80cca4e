-- ===== src/Zsocket/Faults/Turns.antt =====
-- Turns of the event loop of src/zsocket.c that go wrong.
use libzio.Base.{ℕ, ◌<◌, ◌≡◌, ◌/◌, ◌%◌, ◌*◌, refl, Bool, true, false, not, Option, some, arith}
use libzio.Effects.{ok, abort, and_then}
use libzio.Effects.Keeps.{Returns, Returns-weaker, Returns-ok}
use libzio.Links.{Links}
use libzio.Zsocket.Close.{close}
use libzio.Zsocket.Counters.{Leaves}
use libzio.Zsocket.Faults.Asserts.{load-ok, abort-behind}
use libzio.Zsocket.Io.{handle_recv, handle_send}
use libzio.Zsocket.Loop.{PollAnswer, FdSets, failed, nfds, fd_isset, poll_one, poll, loop}
use libzio.Zsocket.Open.{Callbacks}
use libzio.Zsocket.Shutdown.{marked, close-looping}
use libzio.Zsocket.State.{Ptr, Fun, Zsocket, World, fd_setsize, untyped, same_type}

fd_isset-ok :
    (fd : ℕ) (set : ℕ → Bool) (w : World)
    → fd < fd_setsize
    → fd_isset (some fd) set w ≡ ok (set fd, w)
unfolding fd_isset
fd_isset-ok fd set w h = ground arith

send_closed :
    (links : Links) (p : Ptr) (answer : Option ℕ) (w : World) {s : Zsocket}
    → w.mem p ≡ some s
    → s.state.eof ≡ true
    → handle_send links p answer w ≡ abort
unfolding handle_send
send_closed links p answer w {s} at eof =
    rw (load-ok p w at) (abort-behind (not (same_type s.type untyped)) _ w (rw eof refl))

-- The socket has been closed in a loop, where it keeps its descriptor.
abbrev pub IsClosed : Ptr → ℕ → World → Type 0
IsClosed p fd w = (s : Zsocket) × (w.mem p ≡ some s) × (s.fd ≡ some fd) × (s.state.eof ≡ true)

-- When a socket is ready for reading and for writing, and `zsocket_handle_recv` returns with the
-- socket closed, as its read callback may do, the program aborts: `zsocket_poll` goes on to
-- `zsocket_handle_send`, whose socket is at its end.
pub poll_one-aborts :
    (links : Links) (cbs : Callbacks) (answer : PollAnswer) (sets : FdSets) (p : Ptr) (w : World)
    {s : Zsocket} (fd : ℕ)
    → w.mem p ≡ some s
    → s.fd ≡ some fd
    → fd < fd_setsize
    → sets.for_read fd ≡ true
    → sets.for_write fd ≡ true
    → Returns (λ _. IsClosed p fd) (handle_recv links cbs p (answer.recv p) w)
    → poll_one links cbs answer sets p w ≡ abort
unfolding poll_one
poll_one-aborts links cbs answer sets p w {s} fd at on small r wr closed =
    let (u, v, received, closed_at) =
      Returns-ok (λ _. IsClosed p fd) (handle_recv links cbs p (answer.recv p) w) closed in
    let (s', at', on', eof) = closed_at in
    rw
      (
        load-ok p w at,
        on,
        fd_isset-ok fd sets.for_read w small,
        r,
        received,
        load-ok p v at',
        on',
        fd_isset-ok fd sets.for_write v small,
        wr,
        send_closed links p (answer.send p) v at' eof,
      )
      refl

-- When `select` fails and `errno` is not EINTR, the library stays in its loop once `zsocket_loop`
-- has returned: a `zsocket_close` of a live socket after that leaves its descriptor open and the
-- socket on the list.
pub loop-failed :
    (links : Links) (cbs : Callbacks) (timeout : ℕ) (answer : PollAnswer) (clock : Ptr → ℕ)
    (w : World) (p : Ptr) (cb : Option Fun) {s : Zsocket} {fd : ℕ}
    → answer.select (nfds w) (timeout / 1000) (timeout % 1000 * 1000) ≡ failed false
    → w.mem p ≡ some s
    → s.state.eof ≡ false
    → s.fd ≡ some fd
    → fd < fd_setsize
    → Returns
        (λ _ v.
          (v.mem p ≡ some (marked cb s))
          × (v.socks ≡ w.socks)
          × (v.events ≡ w.events)
          × (v.fds_read fd ≡ false)
          × (v.fds_write fd ≡ false)
          × Leaves s.type w.status v.status
          × (v.in_looping ≡ true))
        (and_then (loop links cbs timeout answer clock w) λ _. close links p cb)
unfolding loop poll
loop-failed links cbs timeout answer clock w p cb select at open_ on small = rw select (
    Returns-weaker _ _ (close links p cb (record w { in_looping = true }))
      (close-looping p (record w { in_looping = true }) at open_ on small links cb refl)
      λ _ v h. (h.0, h.1, h.2, h.3, h.4, h.5, h.6))

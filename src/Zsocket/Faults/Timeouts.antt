-- ===== src/Zsocket/Faults/Timeouts.antt =====
-- `zsocket_do_close` of src/zsocket.c at a connection that is closed already when its time is over:
-- `state &= ZS_S_TIMEOUT` takes ZS_S_EOF away, and it is closed again.
use libzio.Base.{
  ℕ, ◌<◌, ◌-◌, ◌≡◌, refl, ap, sym, subst, ◌∙◌, true, false, Option, none, some, inr, ltb, length,
  if◌then◌else◌,
}
use libzio.Effects.{ok, and_then}
use libzio.Effects.Keeps.{Returns, Returns-weaker}
use libzio.Links.{Links}
use libzio.Zsocket.Close.{close, close_now, cleared, count_closed}
use libzio.Zsocket.Counters.{Leaves, count_closed-Leaves}
use libzio.Zsocket.Faults.Asserts.{load-ok, change-ok, update_self}
use libzio.Zsocket.Loop.{do_close_one, finish}
use libzio.Zsocket.Open.{Callbacks}
use libzio.Zsocket.Shutdown.{marked, marked_in, close_with-ok, release-ok, after_release}
use libzio.Zsocket.State.{
  Ptr, Fun, Zsocket, Status, World, connection, same_type, put_socket, and_timeout, fd_setsize,
  unwatch_read_fd, unwatch_write_fd,
}

-- The connection when `zsocket_do_close` has seen that its time is over.
abbrev timed : Zsocket → Zsocket
timed s = record s { state = and_timeout s.state }

module _ (links : Links) (p : Ptr) {fd : ℕ} (small : fd < fd_setsize) where
  close-marked :
      (cb : Option Fun) (w : World) {s : Zsocket}
      → w.mem p ≡ some s
      → s.state.eof ≡ false
      → s.fd ≡ some fd
      → w.in_looping ≡ true
      → close links p cb w ≡ ok (tt, marked_in p s fd cb w)
  unfolding close
  close-marked cb w {s} at open_ on looping =
      close_with-ok p w at open_ on small (close_now links) cb
      ∙ ap
          (λ b.
            if b then ok (tt, marked_in p s fd cb w) else close_now links p (marked_in p s fd cb w))
          looping

  finish-connection :
      (cbs : Callbacks) (w : World) {s : Zsocket}
      → w.mem p ≡ some s
      → s.state.eof ≡ true
      → s.type ≡ connection
      → Returns (λ _ v. v.status ≡ w.status) (finish links cbs p w)
  unfolding finish close_now after_release
  finish-connection cbs w {s} at ended kind =
      let v = after_release links p s w in
      let left : v.mem p ≡ some (cleared s) = update_self w.mem p (some (cleared s)) in
      rw (release-ok links (length w.socks) p w at ended (inr kind), load-ok p v left)
        (rw (load-ok p v left, ap (λ t. same_type t connection) kind) refl)

  -- If a live connection is closed while a loop runs, and its time is over in the same turn,
  -- `zsocket_do_close` closes it once more: it is counted twice as closed, and is taken twice from
  -- the current sockets and connections.
  pub do_close_one-twice :
      (cbs : Callbacks) (cb : Option Fun) (now : ℕ) (w : World) {s : Zsocket}
      → w.mem p ≡ some s
      → s.type ≡ connection
      → s.state.eof ≡ false
      → s.fd ≡ some fd
      → w.in_looping ≡ true
      → ltb s.stall (now - s.tick) ≡ true
      → Returns
          (λ _ v. (st : Status) × Leaves connection w.status st × Leaves connection st v.status)
          (and_then (close links p cb w) λ _. do_close_one links cbs now p)
  unfolding do_close_one unwatch_write_fd unwatch_read_fd
  do_close_one-twice cbs cb now w {s} at kind open_ on looping late =
      let w1 = marked_in p s fd cb w in
      let at1 : w1.mem p ≡ some (marked cb s) = update_self w.mem p (some (marked cb s)) in
      let w2 = put_socket p (timed (marked cb s)) w1 in
      let at2 : w2.mem p ≡ some (timed (marked cb s)) =
        update_self w1.mem p (some (timed (marked cb s))) in
      let s3 = marked none (timed (marked cb s)) in
      let w3 = marked_in p (timed (marked cb s)) fd none w2 in
      let at3 : w3.mem p ≡ some s3 = update_self w2.mem p (some s3) in
      let is_connection : same_type s.type connection ≡ true =
        ap (λ t. same_type t connection) kind in
      rw
        (
          close-marked cb w at open_ on looping,
          load-ok p w1 at1,
          is_connection,
          late,
          change-ok p timed w1 at1,
          close-marked none w2 at2 refl on looping,
          load-ok p w3 at3,
        )
        (Returns-weaker _ _ (finish links cbs p w3) (finish-connection cbs w3 at3 refl kind)
          λ _ v e.
            let st : Status = count_closed s.type w.status in
            let leaves : (a : Status) → Leaves connection a (count_closed s.type a) = λ a.
              subst (λ t. Leaves t a (count_closed s.type a)) kind (count_closed-Leaves s.type a) in
            (st, leaves w.status, subst (Leaves connection st) (sym e) (leaves st)))

-- ===== src/Zsocket/Shutdown.antt =====
-- What `zsocket_close` and `__zsocket_close` of src/zsocket.c do when they return.
use libzio.Base.{
  ℕ, suc, ◌<◌, ◌≡◌, ◌⊎◌, ◌==◌, inl, inr, refl, ap, ◌∙◌, Bool, true, false, not, is_some, Option,
  none, some, List, ◌∷◌, arith, length, if◌then◌else◌,
}
use libzio.Effects.{ok, abort, M, assert, skip}
use libzio.Effects.Keeps.{Returns}
use libzio.Links.{Links, erase}
use libzio.Zsocket.Close.{
  release, close_now, close_siblings, close_with, close, cleared, count_closed, free_held,
}
use libzio.Zsocket.Counters.{Leaves, count_closed-Leaves}
use libzio.Zsocket.Faults.Asserts.{load-ok, change-ok, update_self}
use libzio.Zsocket.State.{
  Ptr, Fun, Zsocket, World, untyped, server, same_type, Event, freed_rbuf, freed_wbuf, freed_sdata,
  sys_close, sys_shutdown, put_socket, emit, client, connection, unwatch_read, unwatch_write,
  unwatch_read_fd, unwatch_write_fd, fd_setsize, at_fd,
}

-- The socket that `zsocket_close` leaves in a loop: marked, and still open.
abbrev pub marked : Option Fun → Zsocket → Zsocket
marked cb s = record s {
  state = record s.state { eof = true };
  s_ops = record s.s_ops { close_cb = cb };
}

pub at_fd-ok :
    (g : ℕ → World → World) (o : Option ℕ) (fd : ℕ) (w : World)
    → o ≡ some fd
    → fd < fd_setsize
    → at_fd g o w ≡ ok (tt, g fd w)
at_fd-ok g o fd w e h = rw e (ground arith)

branch-ok :
    (b : Bool) (m : M World (Unit {0})) (w : World)
    → (if b then skip else m) w ≡ (if b then ok (tt, w) else m w)
branch-ok true m w = refl
branch-ok false m w = refl

pub assert-ok : (b : Bool) (w : World) → b ≡ true → assert b w ≡ ok (tt, w)
assert-ok b w e = rw e refl

-- `__zsocket_close` at a marked socket that is no server.
unfoldable pub after_release : Links → Ptr → Zsocket → World → World
after_release links p s w = put_socket p (cleared s) (
    free_held p s (
      emit (sys_close s.fd)
        (emit (sys_shutdown s.fd) (record w { socks = links.list_del p w.socks }))))

pub release-ok :
    (links : Links) (n : ℕ) (p : Ptr) (w : World) {s : Zsocket}
    → w.mem p ≡ some s
    → s.state.eof ≡ true
    → (s.type ≡ client) ⊎ (s.type ≡ connection)
    → release links (suc n) p w ≡ ok (tt, after_release links p s w)
unfolding release after_release close_siblings
release-ok links n p w {s} at eof kind =
    let v = record w { socks = links.list_del p w.socks } in
    rw
      (
        load-ok p w at,
        assert-ok s.state.eof w eof,
        assert-ok (not (same_type s.type untyped)) w (typed kind),
        no_server kind,
        load-ok p v at,
        change-ok p cleared (free_held p s (emit (sys_close s.fd) (emit (sys_shutdown s.fd) v))) at,
      )
      refl
  where
    typed : (s.type ≡ client) ⊎ (s.type ≡ connection) → not (same_type s.type untyped) ≡ true
    typed (inl e) = rw e refl
    typed (inr e) = rw e refl

    no_server : (s.type ≡ client) ⊎ (s.type ≡ connection) → same_type s.type server ≡ false
    no_server (inl e) = rw e refl
    no_server (inr e) = rw e refl

-- The events when a block is freed, if there is one.
abbrev pub freed_if : {A : Type 0} → Option A → Event → List Event → List Event
freed_if none e es = es
freed_if (some a) e es = e ∷ es

freed_if-is_some :
    {A : Type 0} (o : Option A) (e : Event) (es : List Event)
    → (if is_some o then e ∷ es else es) ≡ freed_if o e es
freed_if-is_some none e es = refl
freed_if-is_some (some a) e es = refl

-- The world when the socket `s` at `p`, on the descriptor `fd`, has been marked.
abbrev pub marked_in : Ptr → Zsocket → ℕ → Option Fun → World → World
marked_in p s fd cb w =
    record (put_socket p (marked cb s) (unwatch_write_fd fd (unwatch_read_fd fd w))) {
      status = count_closed s.type w.status;
    }

closed_twice :
    (rel : Ptr → M World (Unit {0})) (p : Ptr) (cb : Option Fun) (w : World) {s : Zsocket}
    → w.mem p ≡ some s
    → s.state.eof ≡ true
    → close_with rel p cb w ≡ abort
unfolding close_with
closed_twice rel p cb w at eof = rw (load-ok p w at, eof) refl

module _ (p : Ptr) (w : World) {s : Zsocket} {fd : ℕ} (at : w.mem p ≡ some s)
    (open_ : s.state.eof ≡ false) (on : s.fd ≡ some fd) (small : fd < fd_setsize) where
  pub close_with-ok :
      (rel : Ptr → M World (Unit {0})) (cb : Option Fun)
      → close_with rel p cb w
        ≡ (if w.in_looping then ok (tt, marked_in p s fd cb w) else rel p (marked_in p s fd cb w))
  unfolding close_with unwatch_read unwatch_write unwatch_read_fd unwatch_write_fd
  close_with-ok rel cb =
      rw
        (
          load-ok p w at,
          open_,
          at_fd-ok unwatch_read_fd s.fd fd w on small,
          at_fd-ok unwatch_write_fd s.fd fd (unwatch_read_fd fd w) on small,
          change-ok p (marked cb) (unwatch_write_fd fd (unwatch_read_fd fd w)) at,
        )
        (branch-ok w.in_looping (rel p) (marked_in p s fd cb w))

  -- In a loop, and so in every callback of one, `zsocket_close` of a live socket, whose
  -- descriptor fits into an `fd_set`, returns: it stops the watching, marks the socket, counts it as
  -- closed and no longer as current, and leaves the list, the descriptor, the buffers and the other
  -- sockets as they are. A second `zsocket_close` of the socket then aborts the program.
  pub close-looping :
      (links : Links) (cb : Option Fun)
      → w.in_looping ≡ true
      → Returns
          (λ _ v.
            (v.mem p ≡ some (marked cb s))
            × (v.socks ≡ w.socks)
            × (v.events ≡ w.events)
            × (v.fds_read fd ≡ false)
            × (v.fds_write fd ≡ false)
            × Leaves s.type w.status v.status
            × (v.in_looping ≡ true)
            × ((q : Ptr) → (p == q) ≡ false → v.mem q ≡ w.mem q)
            × ((again : Option Fun) → close links p again v ≡ abort))
          (close links p cb w)
  unfolding close unwatch_read_fd unwatch_write_fd
  close-looping links cb looping =
      rw (close_with-ok (close_now links) cb, looping)
        (
          update_self w.mem p (some (marked cb s)),
          refl,
          refl,
          update_self w.fds_read fd false,
          update_self w.fds_write fd false,
          count_closed-Leaves s.type w.status,
          refl,
          (λ q other. rw other refl),
          λ again.
              closed_twice (close_now links) p again
                (record (marked_in p s fd cb w) { in_looping = true })
                (update_self w.mem p (some (marked cb s))) refl,
        )

  -- Outside a loop `zsocket_close` of a live client or connection, whose descriptor fits into an
  -- `fd_set`, returns: it stops the watching, counts the socket as closed and no longer as current,
  -- takes it off the list, shuts its descriptor down, closes it, frees the buffers and the block of
  -- the application that the socket has, and leaves it marked, without a descriptor, without them
  -- and without callbacks.
  pub close-idle :
      (links : Links) (cb : Option Fun)
      → w.in_looping ≡ false
      → (s.type ≡ client) ⊎ (s.type ≡ connection)
      → Returns
          (λ _ v.
            (v.mem p
              ≡ some (record s {
                fd = none;
                state = record s.state { eof = true };
                rbuf = none;
                wbuf = none;
                sdata = none;
                user_data = none;
                s_ops = record {
                  close_cb = none;
                  read_cb = none;
                  connected_cb = none;
                  connection_cb = none;
                };
              }))
            × (v.socks ≡ erase p w.socks)
            × (v.events
                ≡ freed_if s.sdata (freed_sdata p) (
                    freed_if s.wbuf (freed_wbuf p) (
                      freed_if s.rbuf
                        (freed_rbuf p)
                        (sys_close (some fd) ∷ sys_shutdown (some fd) ∷ w.events))))
            × (v.fds_read fd ≡ false)
            × (v.fds_write fd ≡ false)
            × Leaves s.type w.status v.status)
          (close links p cb w)
  unfolding close close_now unwatch_read_fd unwatch_write_fd after_release
  close-idle links cb idle kind =
      let v = marked_in p s fd cb w in
      let marked_at : v.mem p ≡ some (marked cb s) = update_self w.mem p (some (marked cb s)) in
      let closed : close links p cb w ≡ ok (tt, after_release links p (marked cb s) v) =
        close_with-ok (close_now links) cb
        ∙ ap (λ b. if b then ok (tt, v) else close_now links p v) idle
        ∙ release-ok links (length w.socks) p v marked_at refl kind in
      rw closed (
        update_self v.mem p (some (cleared (marked cb s))),
        links.del_lem p w.socks,
        ap
              (λ o.
                let one = sys_close o ∷ sys_shutdown o ∷ w.events in
                let two = if is_some s.rbuf then freed_rbuf p ∷ one else one in
                let three = if is_some s.wbuf then freed_wbuf p ∷ two else two in
                if is_some s.sdata then freed_sdata p ∷ three else three)
              on
            ∙ freed_if-is_some s.sdata (freed_sdata p) _
            ∙ ap (freed_if s.sdata (freed_sdata p)) (
                freed_if-is_some s.wbuf (freed_wbuf p) _
                ∙ ap (freed_if s.wbuf (freed_wbuf p)) (freed_if-is_some s.rbuf (freed_rbuf p) _)),
        update_self w.fds_read fd false,
        update_self w.fds_write fd false,
        count_closed-Leaves s.type w.status,
      )

-- ===== src/Zsocket/Faults/Reads.antt =====
-- `zsocket_handle_recv` of src/zsocket.c after a `recv` that fails: `state &= ZS_S_READ_FAILED` takes
-- the bit away that says that the socket is read.
use libzio.Base.{
  ℕ, ◌^◌, ◌<◌, ◌≡◌, ◌≢◌, refl, true, false, not, none, some, List, arith, min, ◌==◌, Bool-cases,
  inl, inr, eq_of_==,
}
use libzio.Effects.{Outcome, ok, abort, fault, stuck, and_then}
use libzio.Effects.Keeps.{Returns, Returns-and_then}
use libzio.Links.{Links}
use libzio.Qbuf.{Qbuf, used, spare}
use libzio.Qbuf.Valid.{IsValid}
use libzio.Zsocket.Buffering.{Counts, counted-call, callback-leads, not_server}
use libzio.Zsocket.Faults.Asserts.{load-ok, change-ok, update_self, abort-behind}
use libzio.Zsocket.Io.{
  RecvAnswer, Memory, shown, set_rbuf, release_bytes, recv_start, recv_bytes, recv_callback,
  recv_grow, handle_recv,
}
use libzio.Zsocket.Open.{Callbacks}
use libzio.Zsocket.Sending.{typed-same, release_bytes-spare}
use libzio.Zsocket.State.{
  Ptr, Fun, Zsocket, World, untyped, server, same_type, change, put_socket, and_read_failed,
}

-- The socket at `p` has room in its read buffer, and is marked as no longer read.
abbrev Unread : Ptr → World → Type 0
Unread p v =
    (z : Zsocket) × (r : Qbuf) × (v.mem p ≡ some z)
    × (z.rbuf ≡ some r)
    × (spare r ≢ 0)
    × (z.state.read_enable ≡ false)

grow-Unread :
    (links : Links) (p : Ptr) (m : Memory) (v : World)
    → Unread p v
    → Returns (λ _. Unread p) (recv_grow links p m v)
unfolding recv_grow
grow-Unread links p m v (z, r, at, has, room, off) =
    rw (load-ok p v at, has)
      (elim (Bool-cases (spare r == 0)) [
        | inl e ↦ absurd (room (eq_of_== (spare r) 0 e))
        | inr e ↦ rw e (z, r, at, has, room, off)
      ])

Unread-aborts :
    (links : Links) (cbs : Callbacks) (p : Ptr) (again : RecvAnswer) (v : World)
    → Unread p v
    → handle_recv links cbs p again v ≡ abort
unfolding handle_recv
Unread-aborts links cbs p again v (z, r, at, has, room, off) =
    rw (load-ok p v at, off)
      (abort-behind (not (same_type z.type untyped)) _ v (abort-behind (not z.state.eof) _ v refl))

Returns-abort :
    {A B : Type 0} (P : World → Type 0) (o : Outcome (A × World)) (f : World → Outcome (B × World))
    → Returns (λ _. P) o
    → ((v : World) → P v → f v ≡ abort)
    → and_then o (λ _. f) ≡ abort
Returns-abort P (ok (a, v)) f h k = k v h
Returns-abort P abort f h k = absurd h
Returns-abort P fault f h k = absurd h
Returns-abort P stuck f h k = absurd h

module _ (p : Ptr) (w : World) {s : Zsocket} {q : Qbuf} (at : w.mem p ≡ some s)
    (has : s.rbuf ≡ some q) (valid : IsValid q) (answer : RecvAnswer)
    (lost : answer.pending ≡ none) where
  abbrev failed : Zsocket
  failed = record s { state = and_read_failed s.state }

  abbrev after : World
  after = put_socket p (record failed { tick = answer.now }) (put_socket p failed w)

  recv_bytes-lost :
      (o : Outcome (Unit {0} × World))
      → change p (λ z. record z { tick = answer.now }) (put_socket p failed w) ≡ o
      → recv_bytes p answer w ≡ o
  unfolding recv_bytes
  recv_bytes-lost o e =
      rw
        (
          load-ok p w at,
          has,
          lost,
          change-ok p (λ z. record z { state = and_read_failed z.state }) w at,
        )
        e

  recv_bytes-failed : recv_bytes p answer w ≡ ok (tt, after)
  recv_bytes-failed = recv_bytes-lost (ok (tt, after)) (
      change-ok p (λ z. record z { tick = answer.now }) (put_socket p failed w)
        (update_self w.mem p (some failed)))

  handled-Unread :
      (links : Links) (cbs : Callbacks)
      → s.type ≢ untyped
      → s.type ≢ server
      → s.state.eof ≡ false
      → s.state.read_enable ≡ true
      → Returns (λ _. Unread p) (recv_callback cbs p after)
      → Returns (λ _. Unread p) (handle_recv links cbs p answer w)
  unfolding handle_recv recv_start
  handled-Unread links cbs typed plain open_ reads h =
      rw
        (
          load-ok p w at,
          typed-same s.type typed,
          open_,
          reads,
          not_server s.type plain,
          load-ok p w at,
          has,
          recv_bytes-failed,
        )
        (Returns-and_then (λ _. Unread p) (λ _. Unread p) _ _ h
          λ _ v u. grow-Unread links p answer.memory v u)

  called-Unread :
      (cbs : Callbacks) (f : Fun) (consumed : List ℕ → ℕ)
      → s.s_ops.read_cb ≡ some f
      → spare q ≢ 0
      → used q < 2 ^ 31
      → Counts cbs f p consumed
      → Returns (λ _. Unread p) (recv_callback cbs p after)
  called-Unread cbs f consumed set room few calls =
      let z = record failed { tick = answer.now } in
      let n = min (consumed (shown q)) (used q) in
      let here : after.mem p ≡ some z = update_self (put_socket p failed w).mem p (some z) in
      callback-leads (Unread p) cbs p f (consumed (shown q)) after {z = z} here set has
        (counted-call cbs f p consumed valid few calls after) (calls (shown q)).0
        (λ _. (z, q, here, has, room, refl))
        (λ ne. (
          set_rbuf (release_bytes q n) z,
          release_bytes q n,
          update_self after.mem p (some (set_rbuf (release_bytes q n) z)),
          refl,
          release_bytes-spare n valid (omega arith) (omega arith),
          refl,
        ))

  -- When `recv` fails in `zsocket_handle_recv` of an open client or connection that reads, whose read
  -- buffer is valid, has room and holds fewer than 2^31 bytes, and whose read callback only returns
  -- a count, then the next `zsocket_handle_recv` of that socket aborts the program.
  pub recv_failure-aborts :
      (links : Links) (cbs : Callbacks) (again : RecvAnswer) (f : Fun) (consumed : List ℕ → ℕ)
      → s.type ≢ untyped
      → s.type ≢ server
      → s.state.eof ≡ false
      → s.state.read_enable ≡ true
      → s.s_ops.read_cb ≡ some f
      → spare q ≢ 0
      → used q < 2 ^ 31
      → Counts cbs f p consumed
      → and_then (handle_recv links cbs p answer w) (λ _. handle_recv links cbs p again) ≡ abort
  recv_failure-aborts links cbs again f consumed typed plain open_ reads set room few calls =
      Returns-abort (Unread p) (handle_recv links cbs p answer w) (handle_recv links cbs p again)
        (handled-Unread links cbs typed plain open_ reads
          (called-Unread cbs f consumed set room few calls))
        (Unread-aborts links cbs p again)

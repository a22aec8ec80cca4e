-- ===== src/Zsocket/Sending.antt =====
-- The bytes that `zsocket_write` and `zsocket_handle_send` of src/zsocket.c leave in the write
-- buffer of a socket.
use libzio.Base.{
  ℕ, ◌≤◌, ◌<◌, ◌≡◌, ◌≢◌, inl, inr, refl, ap, sym, ◌∙◌, true, false, not, Option, none, some, List,
  [], ◌++◌, arith, length, ◌==◌, ==-false, eq_of_==, Bool-cases, take, drop, object_max,
}
use libzio.Effects.{ok}
use libzio.Effects.Keeps.{Returns, Returns-weaker}
use libzio.Links.{Links}
use libzio.Qbuf
use libzio.Qbuf.{Qbuf, used, spare, collect, offset_out_head, policy_less_spare}
use libzio.Qbuf.Contents.{contents}
use libzio.Qbuf.Moves.{
  contents-collect, collect-spare, offset_out_head-drop, offset_out_head-size, skip-collect-spare,
}
use libzio.Qbuf.Valid.{IsValid, used_lem, offset_out_head-IsValid, collect-IsValid}
use libzio.Qbuf.Write.{accepted, write-append}
use libzio.Zsocket.Faults.Asserts.{load-ok, change-ok, update_self}
use libzio.Zsocket.Io.{
  Memory, write, write_start, handle_send, sent, sendable, release_bytes, set_wbuf,
}
use libzio.Zsocket.Shutdown.{assert-ok}
use libzio.Zsocket.State.{
  Ptr, Zsocket, World, SocketType, untyped, client, server, connection, same_type, put_socket,
}

-- The bytes that wait to be sent.
abbrev pub stored : Option Qbuf → List ℕ
stored none = []
stored (some q) = contents q

abbrev pub waiting : Option Zsocket → List ℕ
waiting none = []
waiting (some s) = stored s.wbuf

-- When bytes are done with, `qbuf_offset_out_head` and `qbuf_collect` drop just those.
pub release_bytes-contents :
    {q : Qbuf} (n : ℕ) → IsValid q → n ≤ used q → contents (release_bytes q n) ≡ drop n (contents q)
unfolding release_bytes
release_bytes-contents {q} n v h =
    contents-collect policy_less_spare (offset_out_head-IsValid n v)
    ∙ (offset_out_head-drop n v (omega (arith, used_lem v, v.small, v.within))).0

pub release_bytes-IsValid : {q : Qbuf} (n : ℕ) → IsValid q → IsValid (release_bytes q n)
unfolding release_bytes
release_bytes-IsValid n v = collect-IsValid policy_less_spare (offset_out_head-IsValid n v)

pub release_bytes-size : {q : Qbuf} (n : ℕ) → IsValid q → (release_bytes q n).size ≡ q.size
unfolding release_bytes
release_bytes-size {q} n v =
    (collect-spare policy_less_spare (offset_out_head-IsValid n v)).0 ∙ offset_out_head-size q n

-- The buffer has room when some bytes are done with.
pub release_bytes-spare :
    {q : Qbuf} (n : ℕ) → IsValid q → 0 < n → n ≤ used q → spare (release_bytes q n) ≢ 0
unfolding release_bytes
release_bytes-spare n v positive h = skip-collect-spare n v positive h

pub typed-same : (t : SocketType) → t ≢ untyped → not (same_type t untyped) ≡ true
typed-same untyped ne = absurd (ne refl)
typed-same client ne = refl
typed-same server ne = refl
typed-same connection ne = refl

-- What `zsocket_handle_send` makes of the socket `s` at `p` when `send` could take `n` bytes of its
-- write buffer `q`: only the buffer is another.
abbrev pub Sent : Ptr → Zsocket → World → Qbuf → ℕ → World → Type 0
Sent p s w q n v =
    (q' : Qbuf) × (v.mem p ≡ some (set_wbuf q' s))
    × IsValid q'
    × (contents q' ≡ drop (sendable q n) (contents q))
    × (v.socks ≡ w.socks)
    × (v.events ≡ w.events)

module _ (p : Ptr) (w : World) {s : Zsocket} (at : w.mem p ≡ some s)
    (open_ : s.state.eof ≡ false) where
  write_start-ok : (m : Memory) → s.state.write_enable ≡ true → write_start p m w ≡ ok (true, w)
  unfolding write_start
  write_start-ok m enabled = rw (load-ok p w at, enabled) refl

  write-ok :
      (buf : List ℕ) (m : Memory) {q : Qbuf}
      → s.state.write_enable ≡ true
      → s.wbuf ≡ some q
      → write p buf m w
        ≡ ok ((Qbuf.write q buf m.grow).0, put_socket p (set_wbuf (Qbuf.write q buf m.grow).1 s) w)
  unfolding write
  write-ok buf m {q} enabled has =
      rw
        (
          load-ok p w at,
          assert-ok (not s.state.eof) w (ap not open_),
          write_start-ok m enabled,
          load-ok p w at,
          has,
          change-ok p (set_wbuf (Qbuf.write q buf m.grow).1) w at,
        )
        refl

  -- `zsocket_write` of at most 2^63 - 1 bytes, on a live socket that is being written and has a
  -- valid write buffer, returns the number of bytes that the buffer accepts, and appends just
  -- those to it.
  pub write-waiting :
      (buf : List ℕ) (m : Memory) {q : Qbuf}
      → s.state.write_enable ≡ true
      → s.wbuf ≡ some q
      → IsValid q
      → length buf ≤ object_max
      → Returns
          (λ n v.
            (n ≡ accepted q (length buf) m.grow) × (waiting (v.mem p) ≡ contents q ++ take n buf))
          (write p buf m w)
  write-waiting buf m {q} enabled has valid small =
      let stored_lem = write-append buf m.grow valid small in
      rw
        (
          write-ok buf m enabled has,
          update_self w.mem p (some (set_wbuf (Qbuf.write q buf m.grow).1 s)),
        )
        (stored_lem.0, stored_lem.1)

  has_wbuf : {q : Qbuf} → s.wbuf ≡ some q → w.mem p ≡ some (set_wbuf q s)
  has_wbuf has = at ∙ ap (λ o. some (record s { wbuf = o })) has

  unsent : {q : Qbuf} (n : ℕ) → s.wbuf ≡ some q → IsValid q → sendable q n ≡ 0 → Sent p s w q n w
  unsent {q} n has valid e =
      (q, has_wbuf has, valid, sym (ap (λ n. drop n (contents q)) e), refl, refl)

  sent-Sent :
      (links : Links) {q : Qbuf} (n : ℕ)
      → s.wbuf ≡ some q
      → IsValid q
      → Returns (λ _. Sent p s w q n) (sent links p q (some n) w)
  unfolding sent
  sent-Sent links {q} n has valid =
      let k = sendable q n in
      elim (Bool-cases (k == 0)) [
        | inl e ↦ rw e (unsent n has valid (eq_of_== k 0 e))
        | inr e ↦
            let positive : 0 < k = ground arith in
            let few : k ≤ used q = omega arith in
            let q' = release_bytes q k in
            rw
              (
                e,
                change-ok p (set_wbuf q') w at,
                ==-false (spare q') 0 (release_bytes-spare k valid positive few),
              )
              (
                q',
                update_self w.mem p (some (set_wbuf q' s)),
                release_bytes-IsValid k valid,
                release_bytes-contents k valid few,
                refl,
                refl,
              )
      ]

  pub handle_send-Sent :
      (links : Links) {q : Qbuf} (n : ℕ)
      → s.type ≢ untyped
      → s.state.write_enable ≡ true
      → s.wbuf ≡ some q
      → IsValid q
      → Returns (λ _. Sent p s w q n) (handle_send links p (some n) w)
  unfolding handle_send
  handle_send-Sent links {q} n typed enabled has valid =
      rw
        (
          load-ok p w at,
          assert-ok (not (same_type s.type untyped)) w (typed-same s.type typed),
          assert-ok (not s.state.eof) w (ap not open_),
          assert-ok s.state.write_enable w enabled,
          has,
        )
        (elim (Bool-cases (used q == 0)) [
          | inl e ↦ rw e (unsent n has valid (omega (arith, eq_of_== (used q) 0 e)))
          | inr e ↦ rw e (sent-Sent links n has valid)
        ])

  -- On a live socket of some type that is being written, with a valid write buffer,
  -- `zsocket_handle_send` returns when `send` can take `n` bytes: it drops from the buffer just
  -- the bytes that `send` has taken, and closes nothing, since the buffer is not full then.
  pub handle_send-waiting :
      (links : Links) {q : Qbuf} (n : ℕ)
      → s.type ≢ untyped
      → s.state.write_enable ≡ true
      → s.wbuf ≡ some q
      → IsValid q
      → Returns
          (λ _ v.
            (waiting (v.mem p) ≡ drop (sendable q n) (contents q))
            × (v.socks ≡ w.socks)
            × (v.events ≡ w.events))
          (handle_send links p (some n) w)
  handle_send-waiting links {q} n typed enabled has valid =
      Returns-weaker (λ _. Sent p s w q n) _ _ (handle_send-Sent links n typed enabled has valid)
        λ _ v (q', e, _, f, g, h). (ap waiting e ∙ f, g, h)

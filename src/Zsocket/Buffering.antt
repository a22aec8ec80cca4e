-- ===== src/Zsocket/Buffering.antt =====
-- The read buffer of a socket of src/zsocket.c: what `recv` puts in, what the read callback is shown
-- and takes out, and how a full buffer grows.
use libzio.Base.{
  ℕ, suc, double_size, true, false, ◌*◌, ◌^◌, ◌<◌, ◌≢◌, object_max, ◌≤◌, ◌≡◌, refl, ap, sym, ◌∙◌,
  none, some, List, [], ◌∷◌, ◌++◌, append-nil, arith, length, drop, min, ◌==◌, ==-false, Bool-cases,
  inl, inr, eq_of_==,
}
use libzio.Base.Int.{pos, as_int, as_int_small}
use libzio.Effects.{ok}
use libzio.Effects.Keeps.{Returns}
use libzio.Links.{Links}
use libzio.Qbuf.{Qbuf, grant, realloc, used, spare}
use libzio.Qbuf.Growth.{contents-realloc, realloc_done, realloc_granted}
use libzio.Qbuf.Contents.{contents}
use libzio.Qbuf.Moves.{offset_in_head-size, length-contents}
use libzio.Qbuf.Valid.{IsValid, realloc-IsValid}
use libzio.Qbuf.Write.{copy-append, window_lem}
use libzio.Zsocket.Faults.Asserts.{load-ok, change-ok, update_self}
use libzio.Zsocket.Io.{recv_callback, take_in, shown, set_rbuf, release_bytes, recv_grow, Memory}
use libzio.Zsocket.Open.{Callbacks}
use libzio.Zsocket.Sending.{release_bytes-IsValid, release_bytes-size, release_bytes-contents}
use libzio.Zsocket.State.{
  Ptr, Fun, Zsocket, World, put_socket, SocketType, untyped, client, server, connection, same_type,
}

pub take_in-append :
    {q : Qbuf} (bytes : List ℕ)
    → IsValid q
    → length bytes ≤ spare q
    → (contents (take_in q bytes) ≡ contents q ++ bytes) × IsValid (take_in q bytes)
take_in-append [] v room = (sym (append-nil _), v)
take_in-append (b ∷ bytes) v room =
    rw (==-false (suc (length bytes)) 0 (omega arith)) (copy-append (b ∷ bytes) v room)

pub take_in-size : (q : Qbuf) (bytes : List ℕ) → (take_in q bytes).size ≡ q.size
take_in-size q [] = refl
take_in-size q (b ∷ bytes) =
    rw (==-false (suc (length bytes)) 0 (omega arith)) (offset_in_head-size _ _)

pub not_server : (t : SocketType) → t ≢ server → same_type t server ≡ false
not_server untyped ne = refl
not_server client ne = refl
not_server server ne = absurd (ne refl)
not_server connection ne = refl

-- The bytes that are left when a callback has said how many of them it has done with.
abbrev pub after_callback : (List ℕ → ℕ) → List ℕ → List ℕ
after_callback consumed l = drop (min (consumed l) (length l)) l

-- The socket `z` at `p` holds the bytes `l` in a read buffer of `size` bytes; nothing else has
-- changed since `w`.
abbrev pub Held : Ptr → Zsocket → World → (size : ℕ) → List ℕ → World → Type 0
Held p z w size l v =
    (r : Qbuf) × (v.mem p ≡ some (set_rbuf r z))
    × IsValid r
    × (r.size ≡ size)
    × (contents r ≡ l)
    × (v.socks ≡ w.socks)
    × (v.events ≡ w.events)

-- A callback that only returns a count, which may depend on the bytes.
abbrev pub Counts : Callbacks → Fun → Ptr → (List ℕ → ℕ) → Type 0
Counts cbs f p consumed =
    (l : List ℕ)
    → (consumed l < 2 ^ 31)
      × ((u : World) → cbs.on_read f p l (pos (length l)) u ≡ ok (pos (consumed l), u))

-- The bytes that are stored, and their number, as the callback gets them.
pub counted-call :
    (cbs : Callbacks) (f : Fun) (p : Ptr) (consumed : List ℕ → ℕ) {r : Qbuf}
    → IsValid r
    → used r < 2 ^ 31
    → Counts cbs f p consumed
    → (u : World) → cbs.on_read f p (shown r) (as_int (used r)) u ≡ ok (pos (consumed (shown r)), u)
counted-call cbs f p consumed {r} valid few calls u =
    let len : as_int (used r) ≡ pos (length (shown r)) =
      as_int_small (used r) few
      ∙ ap pos (sym (ap length (window_lem valid) ∙ length-contents valid)) in
    rw len ((calls (shown r)).1 u)

-- The two ways in which a callback that only returns a count ends.
pub callback-leads :
    (Q : World → Type 0) (cbs : Callbacks) (p : Ptr) (f : Fun) (count : ℕ) (v : World) {z : Zsocket}
    {r : Qbuf}
    → v.mem p ≡ some z
    → z.s_ops.read_cb ≡ some f
    → z.rbuf ≡ some r
    → cbs.on_read f p (shown r) (as_int (used r)) v ≡ ok (pos count, v)
    → count < 2 ^ 31
    → let n = min count (used r) in
      (n ≡ 0 → Q v)
      → (n ≢ 0 → Q (put_socket p (set_rbuf (release_bytes r n) z) v))
      → Returns (λ _. Q) (recv_callback cbs p v)
unfolding recv_callback
callback-leads Q cbs p f count v {z} {r} here set has call small none_done some_done =
    let n = min count (used r) in
    rw (load-ok p v here, set, has, call, as_int_small count small, load-ok p v here)
      (elim (Bool-cases (n == 0)) [
        | inl e ↦ rw e (none_done (eq_of_== n 0 e))
        | inr e ↦
            rw (e, has, change-ok p (set_rbuf (release_bytes r n)) v here)
              (some_done λ z. ground arith)
      ])

pub callback-Held :
    (cbs : Callbacks) (p : Ptr) (f : Fun) (consumed : List ℕ → ℕ) (v : World) (z : Zsocket)
    (r : Qbuf)
    → v.mem p ≡ some (set_rbuf r z)
    → z.s_ops.read_cb ≡ some f
    → IsValid r
    → used r < 2 ^ 31
    → Counts cbs f p consumed
    → Returns
        (λ _. Held p z v r.size (after_callback consumed (contents r)))
        (recv_callback cbs p v)
callback-Held cbs p f consumed v z r here set valid few calls =
    let n = min (consumed (shown r)) (used r) in
    let count : n ≡ min (consumed (contents r)) (length (contents r)) =
      ap (λ l. min (consumed l) (used r)) (window_lem valid)
      ∙ ap (min (consumed (contents r))) (sym (length-contents valid)) in
    let dropped : drop n (contents r) ≡ after_callback consumed (contents r) =
      ap (λ k. drop k (contents r)) count in
    callback-leads (Held p z v r.size (after_callback consumed (contents r))) cbs p f
      (consumed (shown r)) v {z = set_rbuf r z} here set refl
      (counted-call cbs f p consumed valid few calls v) (calls (shown r)).0
      (λ e. (r, here, valid, refl, ap (λ k. drop k (contents r)) (sym e) ∙ dropped, refl, refl))
      (λ _. (
        release_bytes r n,
        update_self v.mem p (some (set_rbuf (release_bytes r n) z)),
        release_bytes-IsValid n valid,
        release_bytes-size n valid,
        release_bytes-contents n valid (omega arith) ∙ dropped,
        refl,
        refl,
      ))

-- The read buffer has room again.
abbrev pub WithRoom : Ptr → Zsocket → World → List ℕ → World → Type 0
WithRoom p z w l v =
    (r : Qbuf) × (v.mem p ≡ some (set_rbuf r z))
    × IsValid r
    × (spare r ≢ 0)
    × (contents r ≡ l)
    × (v.socks ≡ w.socks)
    × (v.events ≡ w.events)

grow-leads :
    (Q : World → Type 0) (links : Links) (p : Ptr) (m : Memory) (v : World) {z : Zsocket} {r : Qbuf}
    → v.mem p ≡ some z
    → z.rbuf ≡ some r
    → (realloc r (double_size r.size) m.grow).0 ≡ true
    → (spare r ≢ 0 → Q v)
    → (spare r ≡ 0 → Q (put_socket p (set_rbuf (realloc r (double_size r.size) m.grow).1 z) v))
    → Returns (λ _. Q) (recv_grow links p m v)
unfolding recv_grow
grow-leads Q links p m v {z} {r} here has granted roomy full =
    rw (load-ok p v here, has)
      (elim (Bool-cases (spare r == 0)) [
        | inl e ↦
            rw (e, change-ok p (set_rbuf (realloc r (double_size r.size) m.grow).1) v here, granted)
              (full (eq_of_== _ 0 e))
        | inr e ↦ rw e (roomy λ z. ground arith)
      ])

pub grow-WithRoom :
    (links : Links) (p : Ptr) (m : Memory) (w v : World) (z : Zsocket) (size : ℕ) (l : List ℕ)
    (fill : ℕ → ℕ)
    → 0 < size
    → 2 * size ≤ object_max
    → m.grow ≡ some fill
    → Held p z w size l v
    → Returns (λ _. WithRoom p z w l) (recv_grow links p m v)
grow-WithRoom links p m w v z size l fill positive small answer (r, at, valid, e, same, s, t) =
    let len : double_size r.size ≡ 2 * r.size = omega arith in
    let given : grant (2 * r.size) m.grow ≢ none = λ n. ground arith in
    let (grown, room) = realloc_granted (2 * r.size) m.grow valid (omega arith) given in
    grow-leads (WithRoom p z w l) links p m v {z = set_rbuf r z} at refl
      (rw len (realloc_done r (2 * r.size) m.grow given)) (λ ne. (r, at, valid, ne, same, s, t))
      (λ _. rw len (
        (realloc r (2 * r.size) m.grow).1,
        update_self v.mem p _,
        realloc-IsValid (2 * r.size) m.grow valid (omega arith),
        (λ z. omega (arith, valid.within)),
        contents-realloc (2 * r.size) m.grow valid (omega arith) ∙ same,
        s,
        t,
      ))

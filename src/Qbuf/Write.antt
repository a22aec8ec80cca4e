-- ===== src/Qbuf/Write.antt =====
-- What `qbuf_write` stores and returns (src/qbuf.c), whatever the allocator answers.
use libzio.Base.{
  ℕ, ◌+◌, ◌-◌, ◌*◌, ◌≤◌, ◌≡◌, ◌⊎◌, ◌++◌, refl, none, some, List, arith, min, max, leb, length,
  length-take_le, take, drop, object_max, ◌∙◌, ap, sym, if◌then◌else◌,
}
use libzio.Qbuf.{
  Qbuf, Grant, grant, overwrite, make_room, used, spare, write, offset_in_head, rawbuf_in_pos,
  rawbuf_out_pos,
}
use libzio.Qbuf.Contents.{contents, window-extend}
use libzio.Qbuf.Growth.{Room, fits, grown, refused, wanted, make_room_lem}
use libzio.Qbuf.Valid.{IsValid, used_lem, spare_lem, length-overwrite, offset_in_head-IsValid}

-- The last part of `qbuf_write`: `bytes`, which fit in the spare room of `r`, are copied behind
-- those stored and the write offset moves past them.
store : Qbuf → List ℕ → Qbuf
unfolding rawbuf_in_pos
store r bytes =
    (offset_in_head (record r { rawbuf = overwrite (rawbuf_in_pos r) bytes r.rawbuf })
      (length bytes)).1

store-size : (r : Qbuf) (bytes : List ℕ) → (store r bytes).size ≡ r.size
unfolding store offset_in_head
store-size r bytes = refl

module _ (r : Qbuf) (bytes : List ℕ) (v : IsValid r) (room : length bytes ≤ spare r) where
  store-contents : contents (store r bytes) ≡ contents r ++ bytes
  unfolding store offset_in_head
  store-contents = ground (
    arith,
    spare_lem v,
    window-extend r.offset_out r.offset_in r.rawbuf v.ordered (omega arith) bytes,
  )

  store-IsValid : IsValid (store r bytes)
  unfolding store
  store-IsValid =
      offset_in_head-IsValid (length bytes)
        (record {
          block = omega (arith, spare_lem v, length-overwrite r.offset_in bytes r.rawbuf);
          small = v.small;
          ordered = v.ordered;
          within = v.within;
        })
        (omega (arith, spare_lem v))

write-store :
    (q : Qbuf) (src : List ℕ) (answer : Grant)
    → let r = make_room q (length src) answer in
      let n = min (length src) (spare r) in write q src answer ≡ (n, store r (take n src))
unfolding write store
write-store q src answer =
    let r = make_room q (length src) answer in
    let n = min (length src) (spare r) in
    let count : (if leb (length src) (spare r) then length src else spare r) ≡ n = ground arith in
    let filled = record r { rawbuf = overwrite (rawbuf_in_pos r) (take n src) r.rawbuf } in
    rw count (ap (λ k. (n, (offset_in_head filled k).1)) (sym (length-take_le n src (omega arith))))

pub write-count :
    (q : Qbuf) (src : List ℕ) (answer : Grant)
    → (write q src answer).0 ≡ min (length src) (spare (make_room q (length src) answer))
write-count q src answer = ap (λ r. r.0) (write-store q src answer)

-- The number of bytes that `qbuf_write` can take: all, if they fit after the garbage is gone or the
-- block is allowed to grow; as many as fit, if not.
unfoldable pub accepted : Qbuf → ℕ → Grant → ℕ
accepted q len answer =
    if leb len (q.size - used q)
    then len
    else elim (grant (wanted q len) answer) [ none ↦ q.size - used q | some _ ↦ len ]

accepted-Room :
    {q r : Qbuf} (len : ℕ) (answer : Grant)
    → IsValid q
    → Room q len answer r
    → min len (spare r) ≡ accepted q len answer
unfolding accepted
accepted-Room len answer v (fits h e s) = ground arith
accepted-Room len answer v (grown h g e s) = ground arith
accepted-Room len answer v (refused h g e s) = ground arith

-- `qbuf_write` returns the number of bytes accepted, appends exactly those bytes of `src` to the
-- ones stored, and keeps the invariant; for any answer of the allocator and any `src` that is an
-- object of C.
pub write-append :
    {q : Qbuf} (src : List ℕ) (answer : Grant)
    → IsValid q
    → length src ≤ object_max
    → let (n, q') = write q src answer in
      (n ≡ accepted q (length src) answer) × (contents q' ≡ contents q ++ take n src) × IsValid q'
write-append {q} src answer v small =
    let r = make_room q (length src) answer in
    let roomy = make_room_lem (length src) answer v small in
    let n = min (length src) (spare r) in
    let fit : length (take n src) ≤ spare r = omega (arith, length-take_le n src (omega arith)) in
    rw (write-store q src answer) (
      accepted-Room (length src) answer v roomy.room,
      store-contents r (take n src) roomy.valid fit ∙ ap (λ k. k ++ take n src) roomy.kept,
      store-IsValid r (take n src) roomy.valid fit,
    )

size-Room :
    {q r : Qbuf} (len : ℕ) (answer : Grant)
    → Room q len answer r
    → (len + used q ≤ q.size → r.size ≡ q.size)
      × ((r.size ≡ q.size) ⊎ (r.size ≡ 2 * max q.size len))
size-Room len answer (fits h e s) = ground arith
size-Room len answer (grown h g e s) = ground arith
size-Room len answer (refused h g e s) = ground arith

-- In a `qbuf_write` of at most 2^63 - 1 bytes to a valid buffer the block grows only when the
-- bytes do not fit, and then to twice the larger of its size and the length of `src`.
pub size-write :
    {q : Qbuf} (src : List ℕ) (answer : Grant)
    → IsValid q
    → length src ≤ object_max
    → let q' = (write q src answer).1 in
      (length src + used q ≤ q.size → q'.size ≡ q.size)
      × ((q'.size ≡ q.size) ⊎ (q'.size ≡ 2 * max q.size (length src)))
size-write {q} src answer v small =
    let r = make_room q (length src) answer in
    let roomy = make_room_lem (length src) answer v small in
    rw (write-store q src answer, store-size) (size-Room (length src) answer roomy.room)

-- A writer of its own, who copies bytes that fit to `qbuf_rawbuf_in_pos` and then calls
-- `qbuf_offset_in_head`, appends them too.
pub copy-append :
    {q : Qbuf} (bytes : List ℕ)
    → IsValid q
    → length bytes ≤ spare q
    → let filled = record q { rawbuf = overwrite (rawbuf_in_pos q) bytes q.rawbuf } in
      let q' = (offset_in_head filled (length bytes)).1 in
      (contents q' ≡ contents q ++ bytes) × IsValid q'
unfolding store
copy-append {q} bytes v room = (store-contents q bytes v room, store-IsValid q bytes v room)

-- A reader of its own, who looks at the bytes from `qbuf_rawbuf_out_pos` on, sees those stored.
pub window_lem :
    {q : Qbuf} → IsValid q → take (used q) (drop (rawbuf_out_pos q) q.rawbuf) ≡ contents q
unfolding rawbuf_out_pos
window_lem {q} v = ap (λ n. take n (drop q.offset_out q.rawbuf)) (used_lem v)

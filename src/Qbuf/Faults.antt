-- ===== src/Qbuf/Faults.antt =====
-- Where the functions of src/qbuf.c do not do what they are meant to: an `int` in `qbuf_read`, a
-- block that shrinks, and a read offset that wraps.
use libzio.Base.{
  ℕ, ◌+◌, ◌-◌, ◌^◌, ◌≤◌, ◌<◌, ◌≡◌, some, [], arith, min, length, take, through_int, refl, ◌∙◌,
  drop_all, length-take_le,
}
use libzio.Qbuf.{Qbuf, realloc, read, peek, offset_out_head, used, spare}
use libzio.Qbuf.Contents.{contents}
use libzio.Qbuf.Moves.{length-contents, peek-take, offset_out_head-drop}
use libzio.Qbuf.Valid.{IsValid, used_lem, length-resize}

overflowed : (c : ℕ) → 2 ^ 31 ≤ c → c < 2 ^ 32 → through_int c ≡ c + (2 ^ 64 - 2 ^ 32)
overflowed c h k = ground arith

-- When 2^31 bytes or more are copied (fewer than 2^32 by their end), the `int` in `qbuf_read` makes
-- the count it returns larger than the number of bytes copied by 2^64 - 2^32, and every byte that
-- is stored is dropped, whether it was copied or not.
pub read_overflow :
    {q : Qbuf} (len : ℕ)
    → IsValid q
    → 2 ^ 31 ≤ min len (used q)
    → q.offset_out + min len (used q) < 2 ^ 32
    → let (n, bytes, q') = read q len in
      (n ≡ length bytes + (2 ^ 64 - 2 ^ 32))
      × (bytes ≡ take (min len (used q)) (contents q))
      × (contents q' ≡ [])
unfolding read
read_overflow {q} len v large small =
    let c = min len (used q) in
    let least : c ≤ length (contents q) = omega (arith, length-contents v) in
    let peeked : peek q len ≡ (c, take c (contents q)) =
      rw (← length-contents v) (peek-take len v) in
    rw (peeked, overflowed c large (omega arith))
      (
        omega (arith, length-take_le c (contents q) least),
        refl,
        (offset_out_head-drop (c + (2 ^ 64 - 2 ^ 32)) v (omega arith)).0
            ∙ drop_all (c + (2 ^ 64 - 2 ^ 32)) (contents q)
                (omega (arith, length-contents v, used_lem v)),
      )

-- A block that `qbuf_realloc` shrinks below the write offset seems to have more spare room than the
-- block has bytes.
pub realloc_shrink :
    {q : Qbuf} (len : ℕ) (fill : ℕ → ℕ)
    → IsValid q
    → len < q.offset_in
    → let q' = (realloc q len (some fill)).1 in (length q'.rawbuf < spare q') × ¬ IsValid q'
unfolding realloc spare
realloc_shrink {q} len fill v h =
    (ground (arith, length-resize q.rawbuf len fill), λ w. ground (arith, w.within))

-- `qbuf_offset_out_head` with a count so large that the offset wraps moves backwards: `k` bytes that
-- were read before are stored again.
pub skip_wraps :
    {q : Qbuf} (k : ℕ)
    → IsValid q
    → 0 < k
    → k ≤ q.offset_out
    → let (n, q') = offset_out_head q (2 ^ 64 - k) in
      (q' ≡ record q { offset_out = q.offset_out - k }) × (n ≡ used q + k)
unfolding offset_out_head
skip_wraps k v pos h = ground (arith, used_lem v)

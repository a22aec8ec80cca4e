-- ===== src/Qbuf/Valid.antt =====
-- The representation invariant of `struct __queue_buf` (src/qbuf.c), and what the queries mean
-- where it holds.
use libzio.Base.{
  ℕ, ◌+◌, ◌-◌, ◌≤◌, ◌<◌, ◌≡◌, Bool, none, some, List, arith, length, length-append, length-take,
  length-drop, length-fill_from, take, drop, object_max, size_mod,
}
use libzio.Qbuf.{
  Qbuf, Grant, new, realloc, collect, used, spare, overwrite, resize, raw_size, zeroed,
  offset_out_head, offset_in_head, read,
}

-- `block` says that the allocated block has `size` bytes, `small` that it is an object of C.
pub record IsValid (q : Qbuf) : Type 0 where
  pub block : length q.rawbuf ≡ q.size
  pub small : q.size ≤ object_max
  pub ordered : q.offset_out ≤ q.offset_in
  pub within : q.offset_in ≤ q.size

pub used_lem : {q : Qbuf} → IsValid q → used q ≡ q.offset_in - q.offset_out
unfolding used
used_lem v = omega arith

pub spare_lem : {q : Qbuf} → IsValid q → spare q ≡ q.size - q.offset_in
unfolding spare
spare_lem v = omega arith

pub length-overwrite :
    (at : ℕ) (bytes block : List ℕ)
    → at + length bytes ≤ length block
    → length (overwrite at bytes block) ≡ length block
length-overwrite at bytes block h = omega (
  arith,
  length-append (take at block) _,
  length-append bytes (drop (at + length bytes) block),
  length-take at block,
  length-drop (at + length bytes) block,
)

pub length-resize : (block : List ℕ) (len : ℕ) (fill : ℕ → ℕ) → length (resize block len fill) ≡ len
length-resize block len fill = omega (
  arith,
  length-append (take len block) _,
  length-take len block,
  length-fill_from fill (length block) (len - length block),
)

length-zeroed : (n : ℕ) → length (zeroed n) ≡ n
length-zeroed n = length-fill_from _ 0 n

pub new-IsValid :
    (size : ℕ) (self_ok block_ok : Bool) (live : ℕ) {q : Qbuf}
    → (new size self_ok block_ok live).0 ≡ some q
    → IsValid q
unfolding new
new-IsValid size self_ok block_ok live e =
    ground (arith, length-zeroed raw_size, length-zeroed size)

pub realloc-IsValid :
    {q : Qbuf} (len : ℕ) (answer : Grant)
    → IsValid q
    → q.offset_in ≤ len
    → IsValid (realloc q len answer).1
unfolding realloc
realloc-IsValid {q} len none v h = ground arith
realloc-IsValid {q} len (some fill) v h = ground (arith, length-resize q.rawbuf len fill)

pub collect-IsValid : {q : Qbuf} (policy : ℕ) → IsValid q → IsValid (collect q policy).1
unfolding collect
collect-IsValid {q} policy v = ground (
  arith,
  used_lem v,
  length-overwrite 0 (take (used q) (drop q.offset_out q.rawbuf)) q.rawbuf,
  length-take (used q) (drop q.offset_out q.rawbuf),
  length-drop q.offset_out q.rawbuf,
)

pub offset_out_head-IsValid : {q : Qbuf} (len : ℕ) → IsValid q → IsValid (offset_out_head q len).1
unfolding offset_out_head
offset_out_head-IsValid len v = ground arith

pub offset_in_head-IsValid :
    {q : Qbuf} (len : ℕ)
    → IsValid q
    → q.offset_in + len < size_mod
    → IsValid (offset_in_head q len).1
unfolding offset_in_head
offset_in_head-IsValid len v h = ground arith

pub read-IsValid : {q : Qbuf} (len : ℕ) → IsValid q → IsValid (read q len).2
unfolding read
read-IsValid {q} len v = offset_out_head-IsValid _ v

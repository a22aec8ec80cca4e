-- ===== src/Qbuf/Memory.antt =====
-- The blocks of memory behind a buffer (src/qbuf.c): allocation, release, and accesses in bounds.
use libzio.Base.{
  ℕ, ◌≤◌, ◌≡◌, ◌≢◌, ◌↔◌, Bool, true, none, some, [], arith, object_max, ◌==◌, if◌then◌else◌,
}
use libzio.Qbuf.{Qbuf, new, delete, raw_size, spare}
use libzio.Qbuf.Contents.{contents}
use libzio.Qbuf.Valid.{IsValid, new-IsValid}

-- `qbuf_new` followed by `qbuf_delete` leaves as many allocated blocks as there were, whichever of
-- the two requests for memory fails.
pub delete-new :
    (size : ℕ) (self_ok block_ok : Bool) (live : ℕ)
    → let (q, live') = new size self_ok block_ok live in delete q live' ≡ live
unfolding new delete
delete-new size self_ok block_ok live = ground arith

-- `qbuf_new` returns a buffer exactly if both requests for memory succeed and the block is no
-- larger than an object of C. The buffer is valid and empty, and all of its block, 4096 bytes in
-- place of 0, is spare.
pub new_lem :
    (size : ℕ) (self_ok block_ok : Bool) (live : ℕ)
    → let size' = if size == 0 then raw_size else size in
      ((self_ok ≡ true) × (block_ok ≡ true) × (size' ≤ object_max)
        ↔ ((new size self_ok block_ok live).0 ≢ none))
      × ((q : Qbuf)
          → (new size self_ok block_ok live).0 ≡ some q
          → IsValid q × (contents q ≡ []) × (spare q ≡ size'))
unfolding new spare
new_lem size self_ok block_ok live = (
  (ground arith, λ e. (ground arith, ground arith, ground arith)),
  λ q e. (new-IsValid size self_ok block_ok live e, ground arith, ground arith),
)

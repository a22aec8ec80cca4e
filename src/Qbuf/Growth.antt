-- ===== src/Qbuf/Growth.antt =====
-- How `qbuf_write` makes room (src/qbuf.c): it moves the bytes to the front, then grows the block.
use libzio.Base.{
  ℕ, ◌-◌, ◌*◌, ◌≤◌, ◌<◌, ◌≡◌, ◌≢◌, ◌++◌, Option-cases, refl, true, false, none, some, List, arith,
  max, ltb, length, fill_from, take_all, object_max, Bool-cases, inl, inr, ◌∙◌,
}
use libzio.Qbuf.{
  Qbuf, Grant, grant, realloc, resize, collect, make_room, used, spare, policy_none, new_size,
}
use libzio.Qbuf.Contents.{contents, window-append}
use libzio.Qbuf.Moves.{contents-collect, collect-spare}
use libzio.Qbuf.Valid.{IsValid, used_lem, spare_lem, collect-IsValid, realloc-IsValid}

pub resize_grow :
    (block : List ℕ) (len : ℕ) (fill : ℕ → ℕ)
    → length block ≤ len
    → resize block len fill ≡ block ++ fill_from fill (length block) (len - length block)
resize_grow block len fill h = rw (take_all len block h)

-- `qbuf_realloc` to a size that holds all that is stored keeps the stored bytes, whatever the
-- allocator answers.
pub contents-realloc :
    {q : Qbuf} (len : ℕ) (answer : Grant)
    → IsValid q
    → q.size ≤ len
    → contents (realloc q len answer).1 ≡ contents q
unfolding realloc
contents-realloc {q} len none v h = ground arith
contents-realloc {q} len (some fill) v h = ground (
  arith,
  resize_grow q.rawbuf len fill,
  window-append q.offset_out q.offset_in q.rawbuf v.ordered (omega arith)
      (fill_from fill (length q.rawbuf) (len - length q.rawbuf)),
)

-- The block that `qbuf_write` asks for.
abbrev pub wanted : Qbuf → ℕ → ℕ
wanted q len = 2 * max q.size len

-- What `make_room` leaves of the buffer `q` in `r`: the same bytes, and one of three outcomes.
pub data Room (q : Qbuf) (len : ℕ) (answer : Grant) (r : Qbuf) : Type 0 where
  -- The bytes fit in the block once the garbage is gone.
  fits : len ≤ q.size - used q → r.size ≡ q.size → len ≤ spare r → Room q len answer r
  -- The block has grown.
  grown :
      q.size - used q < len
      → grant (wanted q len) answer ≢ none
      → r.size ≡ wanted q len
      → len ≤ spare r
      → Room q len answer r
  -- The allocator has refused, and all the garbage is gone.
  refused :
      q.size - used q < len
      → grant (wanted q len) answer ≡ none
      → r.size ≡ q.size
      → spare r ≡ q.size - used q
      → Room q len answer r

new_size_lem :
    (size len : ℕ) → size ≤ object_max → len ≤ object_max → new_size size len ≡ 2 * max size len
unfolding new_size
new_size_lem size len h k = ground arith

realloc_refused :
    (q : Qbuf) (len : ℕ) (answer : Grant)
    → grant len answer ≡ none
    → realloc q len answer ≡ (false, q)
unfolding realloc
realloc_refused q len answer e = ground arith

pub realloc_granted :
    {q : Qbuf} (len : ℕ) (answer : Grant)
    → IsValid q
    → q.size ≤ len
    → grant len answer ≢ none
    → ((realloc q len answer).1.size ≡ len) × (spare (realloc q len answer).1 ≡ len - q.offset_in)
unfolding realloc spare
realloc_granted {q} len none v h ne = ground arith
realloc_granted {q} len (some fill) v h ne = ground arith

pub realloc_done :
    (q : Qbuf) (len : ℕ) (answer : Grant)
    → grant len answer ≢ none
    → (realloc q len answer).0 ≡ true
unfolding realloc
realloc_done q len none ne = ground arith
realloc_done q len (some fill) ne = ground arith

-- The second half of `make_room`, on a buffer `m` with too little spare room.
module _ (m : Qbuf) (len : ℕ) (answer : Grant) (v : IsValid m) (short : spare m < len)
    (small : len ≤ object_max) where
  enlarged-contents : contents (realloc m (new_size m.size len) answer).1 ≡ contents m
  enlarged-contents =
      rw (new_size_lem m.size len v.small small) (contents-realloc _ answer v (omega arith))

  enlarged-IsValid : IsValid (realloc m (new_size m.size len) answer).1
  enlarged-IsValid =
      rw (new_size_lem m.size len v.small small) (realloc-IsValid _ answer v (omega arith))

  enlarged-Room :
      (q : Qbuf)
      → m.size ≡ q.size
      → spare m ≡ q.size - used q
      → Room q len answer (realloc m (new_size m.size len) answer).1
  enlarged-Room q e room =
      let size : new_size m.size len ≡ wanted q len =
        omega (arith, new_size_lem m.size len v.small small) in
      rw size (elim (Option-cases (grant (wanted q len) answer)) [
        | inl none_left ↦
            rw (realloc_refused m (wanted q len) answer none_left)
              (refused (omega arith) none_left e room)
        | inr (f, given) ↦
            let got = realloc_granted (wanted q len) answer v (omega arith) (λ n. ground arith) in
            grown (omega arith) (λ n. ground arith) got.0 (omega (arith, spare_lem v))
      ])

-- With no flag set nothing keeps `qbuf_collect` from reclaiming the garbage.
collected :
    {q : Qbuf}
    → IsValid q
    → let m = (collect q policy_none).1 in (m.size ≡ q.size) × (spare m ≡ q.size - used q)
collected {q} v =
    let (size, n, done, _) = collect-spare policy_none v in
    let room = (done (inr ((λ e. cc), (λ e. cc)))).0 in
    (size, omega (arith, spare_lem (collect-IsValid policy_none v)))

-- What `make_room` does: the buffer stays valid and keeps its bytes, and the room is as `Room` says.
pub record Roomy (q : Qbuf) (len : ℕ) (answer : Grant) (r : Qbuf) : Type 0 where
  pub valid : IsValid r
  pub kept : contents r ≡ contents q
  pub room : Room q len answer r

pub make_room_lem :
    {q : Qbuf} (len : ℕ) (answer : Grant)
    → IsValid q
    → len ≤ object_max
    → Roomy q len answer (make_room q len answer)
unfolding make_room
make_room_lem {q} len answer v small = elim (Bool-cases (ltb (spare q) len)) [
  | inl tight ↦
      let m = (collect q policy_none).1 in
      let mv : IsValid m = collect-IsValid policy_none v in
      rw tight (elim (Bool-cases (ltb (spare m) len)) [
        | inl short ↦ rw short (record {
          valid = enlarged-IsValid m len answer mv (ground arith) small;
          kept = enlarged-contents m len answer mv (ground arith) small ∙ contents-collect _ v;
          room =
              enlarged-Room m len answer mv (ground arith) small q (collected v).0 (collected v).1;
        })
        | inr enough ↦ rw enough (record {
          valid = mv;
          kept = contents-collect _ v;
          room = fits (ground (arith, collected v)) (collected v).0 (ground arith);
        })
      ])
  | inr roomy ↦
      rw (roomy, roomy)
        (record {
          valid = v;
          kept = refl;
          room = fits (ground (arith, spare_lem v, used_lem v)) refl (ground arith);
        })
]

-- ===== src/Qbuf/Moves.antt =====
-- The operations of src/qbuf.c that move the offsets: collect, peek, read and the two heads.
use libzio.Base.{
  ℕ, ◌+◌, ◌-◌, ◌^◌, ◌≤◌, ◌<◌, ◌≡◌, ◌≢◌, ◌⊎◌, refl, true, arith, min, ◌==◌, ◌/◌, length, take, drop,
  take-take, through_int, ap, ap₂, eq_of_==, ◌∙◌, drop_all, size_mod, Bool-cases, inl, inr, sym,
}
use mathlib.Core.Bool.{false≢true}
use libzio.Qbuf.{
  Qbuf, collect, used, spare, garbage, policy_do, offset_out_head, offset_in_head, peek, read, asks,
  policy_less_spare, policy_large_garbage,
}
use libzio.Qbuf.Contents.{contents, length-window, window-moved, window-skip}
use libzio.Qbuf.Valid.{IsValid, used_lem, spare_lem}

pub length-contents : {q : Qbuf} → IsValid q → length (contents q) ≡ used q
length-contents {q} v =
    omega
      (arith, used_lem v, length-window q.offset_out q.offset_in q.rawbuf v.ordered (omega arith))

-- `qbuf_collect` of a valid buffer never loses or reorders a byte, whatever the policy.
pub contents-collect :
    {q : Qbuf} (policy : ℕ) → IsValid q → contents (collect q policy).1 ≡ contents q
unfolding collect
contents-collect {q} policy v =
    ground
      (arith, used_lem v, window-moved q.offset_out q.offset_in q.rawbuf v.ordered (omega arith))

-- The policy lets the garbage be reclaimed: each flag that is set has its condition met.
abbrev pub Allows : ℕ → Qbuf → Type 0
Allows policy q =
    (asks policy policy_less_spare ≡ true → q.size - q.offset_in ≤ q.size / 4)
    × (asks policy policy_large_garbage ≡ true → q.size / 4 ≤ q.offset_out)

policy_do-Allows :
    {q : Qbuf} (policy : ℕ)
    → IsValid q
    → (Allows policy q → policy_do q policy ≡ true) × (policy_do q policy ≡ true → Allows policy q)
unfolding policy_do garbage
policy_do-Allows policy v = (λ a. ground (arith, spare_lem v, a), λ e. ground (arith, spare_lem v))

-- `qbuf_collect` of a valid buffer returns the spare room that it leaves, and the block keeps its
-- size. If nothing is stored or the policy allows it, all the garbage is reclaimed; otherwise
-- nothing changes.
pub collect-spare :
    {q : Qbuf} (policy : ℕ)
    → IsValid q
    → let (n, q') = collect q policy in
      (q'.size ≡ q.size)
      × (n ≡ q'.size - q'.offset_in)
      × ((used q ≡ 0) ⊎ Allows policy q → (n ≡ q.size - used q) × (q'.offset_out ≡ 0))
      × (used q ≢ 0 → ¬ Allows policy q → q' ≡ q)
unfolding collect spare
collect-spare {q} policy v = elim (Bool-cases (used q == 0)) [
  | inl e ↦
      let none_used : used q ≡ 0 = eq_of_== _ _ e in
      rw e (refl, omega arith, λ _. (omega arith, refl), λ ne _. absurd (ne none_used))
  | inr e ↦
      let some_used : used q ≢ 0 = λ z. ground arith in
      elim (Bool-cases (policy_do q policy)) [
        | inl p ↦ rw e (
            rw p (
              refl,
              omega (arith, used_lem v),
              λ _. (omega (arith, used_lem v), refl),
              λ _ no. absurd (no ((policy_do-Allows policy v).1 p)),
            ))
        | inr p ↦ rw e (
            rw p (
              refl,
              omega arith,
              (λ h. absurd (elim h [
                | inl z ↦ some_used z
                | inr a ↦ false≢true (sym p ∙ (policy_do-Allows policy v).0 a)
              ])),
              λ _ _. refl,
            ))
      ]
]

-- `qbuf_offset_out_head` forgets the `len` oldest bytes, or all, and returns how many are left.
pub offset_out_head-drop :
    {q : Qbuf} (len : ℕ)
    → IsValid q
    → q.offset_out + len < size_mod
    → let (n, q') = offset_out_head q len in
      (contents q' ≡ drop len (contents q)) × (n ≡ length (contents q) - len)
unfolding offset_out_head
offset_out_head-drop {q} len v h = ground (
  arith,
  length-contents v,
  used_lem v,
  window-skip q.offset_out q.offset_in q.rawbuf v.ordered (omega arith) len,
  drop_all len (contents q),
)

pub offset_out_head-size : (q : Qbuf) (len : ℕ) → (offset_out_head q len).1.size ≡ q.size
unfolding offset_out_head
offset_out_head-size q len = ground arith

pub offset_in_head-size : (q : Qbuf) (len : ℕ) → (offset_in_head q len).1.size ≡ q.size
unfolding offset_in_head
offset_in_head-size q len = ground arith

-- `qbuf_offset_in_head` takes in `len` bytes of the block behind those stored, or all that are
-- left of it, and returns the spare room.
pub offset_in_head_lem :
    {q : Qbuf} (len : ℕ)
    → IsValid q
    → q.offset_in + len < size_mod
    → let (n, q') = offset_in_head q len in
      (q' ≡ record q { offset_in = min (q.offset_in + len) q.size })
      × (n ≡ q.size - (q.offset_in + len))
unfolding offset_in_head
offset_in_head_lem len v h = ground arith

pub through_int_small : (n : ℕ) → n < 2 ^ 31 → through_int n ≡ n
through_int_small n h = ground arith

pub peek-take :
    {q : Qbuf} (len : ℕ)
    → IsValid q
    → peek q len
      ≡ (min len (length (contents q)), take (min len (length (contents q))) (contents q))
unfolding peek
peek-take {q} len v =
    let count : (peek q len).0 ≡ min len (length (contents q)) =
      ground (arith, length-contents v) in
    let short : min len (length (contents q)) ≤ q.offset_in - q.offset_out =
      omega (arith, length-contents v, used_lem v) in
    ap₂ (λ n bytes. (n, bytes)) count
      (ap (λ n. take n (drop q.offset_out q.rawbuf)) count
        ∙ sym (take-take _ _ (drop q.offset_out q.rawbuf) short))

-- `qbuf_read` and `qbuf_peek` of a valid buffer with fewer than 2^31 bytes copy the oldest bytes,
-- `len` of them or all; reading also removes them.
pub read-take :
    {q : Qbuf} (len : ℕ)
    → IsValid q
    → used q < 2 ^ 31
    → let (n, bytes, q') = read q len in
      (n ≡ min len (length (contents q)))
      × (bytes ≡ take n (contents q))
      × (contents q' ≡ drop n (contents q))
      × (peek q len ≡ (n, bytes))
unfolding read
read-take {q} len v h =
    let few : min len (length (contents q)) < 2 ^ 31 = omega (arith, length-contents v) in
    rw (peek-take len v, through_int_small _ few)
      (refl, refl, (offset_out_head-drop _ v (omega arith)).0, refl)

-- When some of the bytes are done with, there is room again, whatever is kept.
pub skip-collect-spare :
    {q : Qbuf} (len : ℕ)
    → IsValid q
    → 0 < len
    → len ≤ used q
    → spare (collect (offset_out_head q len).1 policy_less_spare).1 ≢ 0
unfolding offset_out_head collect spare used policy_do garbage
skip-collect-spare {q} len v positive h =
    ground (arith, used_lem v, v.block, v.small, v.ordered, v.within)

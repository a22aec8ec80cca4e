-- ===== src/Qbuf/Refine.antt =====
-- A valid buffer (src/qbuf.c) is the queue of the bytes that it holds.
use libzio.Base.{
  ℕ, ◌+◌, ◌^◌, ◌≤◌, ◌<◌, ◌≡◌, refl, some, List, [], ◌∷◌, ◌++◌, arith, length, length-append, take,
  drop, take_all, object_max, ap, ap₂, ◌∙◌, sym, subst, min,
}
use libzio.Qbuf.{Qbuf, peek, read, write, collect, offset_out_head, used}
use libzio.Qbuf.Contents.{contents}
use libzio.Qbuf.Moves.{
  length-contents, contents-collect, peek-take, read-take, offset_out_head-drop,
}
use libzio.Qbuf.Queue
use libzio.Qbuf.Queue.{Op, put, get, look, tidy, skip, Reply}
use libzio.Qbuf.Valid.{IsValid, used_lem, collect-IsValid, read-IsValid, offset_out_head-IsValid}
use libzio.Qbuf.Write.{accepted, write-append}

-- The calls, made on the buffer.
pub run : Qbuf → List Op → List Reply
run q [] = []
run q (put fill src ∷ ops) = let (n, q') = write q src (some fill) in (n, []) ∷ run q' ops
run q (get len ∷ ops) = let (n, bytes, q') = read q len in (n, bytes) ∷ run q' ops
run q (look len ∷ ops) = peek q len ∷ run q ops
run q (tidy policy ∷ ops) = (0, []) ∷ run (collect q policy).1 ops
run q (skip len ∷ ops) = let (n, q') = offset_out_head q len in (n, []) ∷ run q' ops

-- Fewer than 2^31 bytes are in the queue `q` at any time, and every skip is a count that does not
-- wrap the read offset.
abbrev pub Bounded : List ℕ → List Op → Type 0
Bounded q [] = length q < 2 ^ 31
Bounded q (put fill src ∷ ops) = (length q < 2 ^ 31) × Bounded (q ++ src) ops
Bounded q (get len ∷ ops) = (length q < 2 ^ 31) × Bounded (drop (min len (length q)) q) ops
Bounded q (look len ∷ ops) = (length q < 2 ^ 31) × Bounded q ops
Bounded q (tidy policy ∷ ops) = (length q < 2 ^ 31) × Bounded q ops
Bounded q (skip len ∷ ops) = (length q < 2 ^ 31) × (len ≤ object_max) × Bounded (drop len q) ops

Bounded-small : (q : List ℕ) (ops : List Op) → Bounded q ops → length q < 2 ^ 31
Bounded-small q [] b = b
Bounded-small q (put fill src ∷ ops) b = b.0
Bounded-small q (get len ∷ ops) b = b.0
Bounded-small q (look len ∷ ops) b = b.0
Bounded-small q (tidy policy ∷ ops) b = b.0
Bounded-small q (skip len ∷ ops) b = b.0

-- A write that is granted its memory takes every byte, while less than 2^31 bytes are stored.
write_all :
    {q : Qbuf} (src : List ℕ) (fill : ℕ → ℕ)
    → IsValid q
    → used q + length src < 2 ^ 31
    → accepted q (length src) (some fill) ≡ length src
unfolding accepted
write_all {q} src fill v h = ground (arith, used_lem v)

write-put :
    {q : Qbuf} (src : List ℕ) (fill : ℕ → ℕ)
    → IsValid q
    → used q + length src < 2 ^ 31
    → let (n, q') = write q src (some fill) in
      (n ≡ length src) × (contents q' ≡ contents q ++ src) × IsValid q'
write-put {q} src fill v h =
    let (n, bytes, v') = write-append src (some fill) v (omega arith) in
    let all : (write q src (some fill)).0 ≡ length src = n ∙ write_all src fill v h in
    (
      all,
      bytes ∙ ap (λ k. contents q ++ k) (ap (λ k. take k src) all ∙ take_all _ src (omega arith)),
      v',
    )

-- No script of calls tells a valid buffer from the queue of the bytes it holds, but by the spare
-- room that `qbuf_collect` returns, which is not compared; as long as `realloc` gives what it is
-- asked for, fewer than 2^31 bytes are stored at any time and no skip wraps the read offset.
pub run_refines :
    (ops : List Op) {q : Qbuf}
    → IsValid q
    → Bounded (contents q) ops
    → run q ops ≡ Queue.run (contents q) ops
unfolding run Queue.run
run_refines [] v b = refl
run_refines (put fill src ∷ ops) {q} v b =
    let later = Bounded-small (contents q ++ src) ops b.1 in
    let (n, bytes, v') =
      write-put src fill v
        (omega (arith, later, length-append (contents q) src, length-contents v)) in
    ap₂ (λ k r. (k, []) ∷ r) n
      (run_refines ops v' (subst (λ c. Bounded c ops) (sym bytes) b.1)
        ∙ ap (λ c. Queue.run c ops) bytes)
run_refines (get len ∷ ops) {q} v b =
    let (n, bytes, rest, _) = read-take len v (omega (arith, b.0, length-contents v)) in
    let left : contents (read q len).2 ≡ drop (min len (length (contents q))) (contents q) =
      rest ∙ ap (λ k. drop k (contents q)) n in
    ap₂ ◌∷◌ (ap₂ (λ k l. (k, l)) n (bytes ∙ ap (λ k. take k (contents q)) n)) (
      run_refines ops (read-IsValid len v) (subst (λ c. Bounded c ops) (sym left) b.1)
      ∙ ap (λ c. Queue.run c ops) left)
run_refines (look len ∷ ops) {q} v b = ap₂ ◌∷◌ (peek-take len v) (run_refines ops v b.1)
run_refines (tidy policy ∷ ops) {q} v b =
    let same = contents-collect policy v in
    ap (λ r. (0, []) ∷ r)
      (run_refines ops (collect-IsValid policy v) (subst (λ c. Bounded c ops) (sym same) b.1)
        ∙ ap (λ c. Queue.run c ops) same)
run_refines (skip len ∷ ops) {q} v b =
    let (rest, n) =
      offset_out_head-drop len v (omega (arith, b.0, b.1, v.small, v.ordered, v.within)) in
    ap₂ (λ k r. (k, []) ∷ r) n
      (run_refines ops (offset_out_head-IsValid len v) (subst (λ c. Bounded c ops) (sym rest) b.2)
        ∙ ap (λ c. Queue.run c ops) rest)

-- ===== src/Qbuf/Queue.antt =====
-- What src/qbuf.h promises its clients: a first-in, first-out queue of bytes.
use libzio.Base.{ℕ, ◌-◌, List, [], ◌∷◌, ◌++◌, min, length, take, drop}

-- The calls of a client. `put fill src` writes `src`, and the allocator grants a growth that the
-- call may need with a block whose fresh bytes are `fill`.
pub data Op : Type 0 where
  put : (ℕ → ℕ) → List ℕ → Op
  get : ℕ → Op
  look : ℕ → Op
  tidy : ℕ → Op
  skip : ℕ → Op

-- What a client sees of a call: a count, and the bytes that it received.
abbrev pub Reply : Type 0
Reply = ℕ × List ℕ

-- The queue, oldest byte first, under the same calls. `tidy` reports the spare room of the block,
-- which is no business of the queue: its count is left out.
unfoldable pub run : List ℕ → List Op → List Reply
run q [] = []
run q (put fill src ∷ ops) = (length src, []) ∷ run (q ++ src) ops
run q (get len ∷ ops) = let n = min len (length q) in (n, take n q) ∷ run (drop n q) ops
run q (look len ∷ ops) = let n = min len (length q) in (n, take n q) ∷ run q ops
run q (tidy policy ∷ ops) = (0, []) ∷ run q ops
run q (skip len ∷ ops) = (length q - len, []) ∷ run (drop len q) ops

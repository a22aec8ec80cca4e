-- ===== src/Qbuf/Contents.antt =====
-- The bytes that a `qbuf_t` holds (src/qbuf.c), and how the moves of the block treat them.
use libzio.Base.{
  ℕ, ◌+◌, ◌-◌, ◌≤◌, ◌≡◌, ◌∙◌, ap, sym, List, ◌++◌, arith, length, length-take_le, length-drop, take,
  drop, drop-drop, drop-take, take-append_le, take-append_ge, take_all, drop-append_le,
}
use libzio.Qbuf.{Qbuf, overwrite}

-- The bytes between the two offsets, oldest first.
abbrev pub contents : Qbuf → List ℕ
contents q = take (q.offset_in - q.offset_out) (drop q.offset_out q.rawbuf)

module _ (out in' : ℕ) (block : List ℕ) (ordered : out ≤ in') (within : in' ≤ length block) where
  pub length-window : length (take (in' - out) (drop out block)) ≡ in' - out
  length-window = length-take_le _ _ (omega (arith, length-drop out block))

  -- What `memmove` puts at the front of the block is what stood between the offsets.
  pub window-moved :
      take (in' - out - 0) (drop 0 (overwrite 0 (take (in' - out) (drop out block)) block))
      ≡ take (in' - out) (drop out block)
  window-moved =
      take-append_le _ _ _ (omega (arith, length-window))
      ∙ take_all _ _ (omega (arith, length-window))

  -- A window skips `n` bytes when the read offset does.
  pub window-skip :
      (n : ℕ)
      → out + n ≤ in'
      → take (in' - (out + n)) (drop (out + n) block) ≡ drop n (take (in' - out) (drop out block))
  window-skip n h =
      ap (take (in' - (out + n))) (sym (drop-drop n out (out + n) block (omega arith)))
      ∙ sym (drop-take n (in' - (out + n)) (in' - out) (drop out block) (omega arith))

  -- Bytes written at the write offset stand behind the window.
  pub window-extend :
      (bytes : List ℕ)
      → in' + length bytes ≤ length block
      → take (in' + length bytes - out) (drop out (overwrite in' bytes block))
        ≡ take (in' - out) (drop out block) ++ bytes
  window-extend bytes h = rw (
    drop-append_le out (take in' block) (bytes ++ drop (in' + length bytes) block)
        (omega (arith, length-take_le in' block within)),
    drop-take out (in' - out) in' block (omega arith),
    take-append_ge (in' + length bytes - out) (length bytes) (take (in' - out) (drop out block))
        (bytes ++ drop (in' + length bytes) block) (omega (arith, length-window)),
    take-append_le (length bytes) bytes (drop (in' + length bytes) block) (omega arith),
    take_all (length bytes) bytes (omega arith),
  )

  -- A block that grows keeps the window.
  pub window-append :
      (more : List ℕ)
      → take (in' - out) (drop out (block ++ more)) ≡ take (in' - out) (drop out block)
  window-append more =
      rw (drop-append_le out block more (omega arith))
        (take-append_le _ _ _ (omega (arith, length-drop out block)))

-- ===== src/Qbuf/Tests.antt =====
-- Runs of the functions of src/qbuf.c, and the theorems about them at concrete buffers.
use libzio.Base.{ℕ, ◌≡◌, refl, none, some, List, [], ◌∷◌, arith, take, fill_from}
use libzio.Qbuf.{
  Qbuf, write, collect, realloc, offset_in_head, new_size, make_room, rawbuf_in_pos,
  policy_less_spare,
}
use libzio.Qbuf.Contents.{contents}
use libzio.Qbuf.Queue
use libzio.Qbuf.Queue.{Op, put, get, look, tidy, skip}
use libzio.Qbuf.Refine.{run, run_refines}
use libzio.Qbuf.Valid.{IsValid}
use libzio.Qbuf.Write.{accepted, write-append}

-- Two bytes, 7 and 8, behind one that has been read, in a block of four.
abbrev two_bytes : Qbuf
two_bytes = record { rawbuf = 6 ∷ 7 ∷ 8 ∷ 0 ∷ []; size = 4; offset_in = 3; offset_out = 1 }

abbrev nines : ℕ → ℕ
nines _ = 9

two_bytes-IsValid : IsValid two_bytes
two_bytes-IsValid = omega arith

-- The bytes are moved to the front of the block to make room.
write_moves :
    write two_bytes (1 ∷ 2 ∷ []) none
    ≡ (2, record { rawbuf = 7 ∷ 8 ∷ 1 ∷ 2 ∷ []; size = 4; offset_in = 4; offset_out = 0 })
unfolding write make_room collect offset_in_head realloc rawbuf_in_pos
write_moves = refl

-- A growth that is refused: two of the three bytes are taken.
write_refused : (write two_bytes (1 ∷ 2 ∷ 3 ∷ []) none).0 ≡ 2
unfolding write make_room collect realloc new_size
write_refused = refl

write_grows : (write two_bytes (1 ∷ 2 ∷ 3 ∷ []) (some nines)).1 ≡ record {
  rawbuf = 7 ∷ 8 ∷ 1 ∷ 2 ∷ 3 ∷ 9 ∷ 9 ∷ 9 ∷ [];
  size = 8;
  offset_in = 5;
  offset_out = 0;
}
unfolding write make_room collect offset_in_head realloc rawbuf_in_pos new_size fill_from
write_grows = refl

abbrev script : List Op
script = look 1 ∷ put nines (1 ∷ 2 ∷ 3 ∷ []) ∷ get 4 ∷ tidy policy_less_spare ∷ skip 9 ∷ []

run_refines_example : run two_bytes script ≡ Queue.run (7 ∷ 8 ∷ []) script
run_refines_example = run_refines script {q = two_bytes} two_bytes-IsValid (
  omega arith,
  (omega arith, (omega arith, (omega arith, (omega arith, omega arith, omega arith)))),
)

write-append_example :
    let (n, q') = write two_bytes (1 ∷ 2 ∷ 3 ∷ []) none in
    (n ≡ accepted two_bytes 3 none) × (contents q' ≡ 7 ∷ 8 ∷ take n (1 ∷ 2 ∷ 3 ∷ [])) × IsValid q'
write-append_example =
    write-append {q = two_bytes} (1 ∷ 2 ∷ 3 ∷ []) none two_bytes-IsValid (omega arith)

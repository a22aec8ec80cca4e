-- ===== src/Qbuf.antt =====
-- src/qbuf.c and src/qbuf.h: a byte queue in one allocated block that grows on demand.
-- An operation that writes through `self` returns the new buffer. The offsets are `size_t` and
-- wrap. `memcpy` and `memmove` copy between lists of bytes.
pub mod Contents
pub mod Faults
pub mod Growth
pub mod Memory
pub mod Moves
pub mod Queue
pub mod Refine
mod Tests
pub mod Valid
pub mod Write
use libzio.Base.{
  ℕ, ◌+◌, ◌-◌, Bool, true, false, ◌&&◌, not, Option, none, some, List, ◌++◌, bit_and, ltb, leb,
  ◌==◌, if◌then◌else◌, length, take, drop, fill_from, add_size, sub_size, double_size, quarter,
  through_int, object_max,
}

-- `struct __queue_buf`. `rawbuf` is the block itself, as the list of its bytes.
pub record Qbuf : Type 0 where
  pub rawbuf : List ℕ
  pub size : ℕ
  pub offset_in : ℕ
  pub offset_out : ℕ

-- The C library's answer to one request for memory: NULL, or a block whose fresh bytes are `fill`.
abbrev pub Grant : Type 0
Grant = Option (ℕ → ℕ)

-- A request above `object_max` fails whatever the state of the heap.
abbrev pub grant : ℕ → Grant → Grant
grant len answer = if leb len object_max then answer else none

-- `memcpy(block + at, bytes, length bytes)`
abbrev pub overwrite : ℕ → List ℕ → List ℕ → List ℕ
overwrite at bytes block = take at block ++ (bytes ++ drop (at + length bytes) block)

-- The block that `realloc(block, len)` returns, the old bytes in front.
abbrev pub resize : List ℕ → ℕ → (ℕ → ℕ) → List ℕ
resize block len fill = take len block ++ fill_from fill (length block) (len - length block)

abbrev pub raw_size : ℕ
raw_size = 4096

-- `calloc` clears the block.
abbrev pub zeroed : ℕ → List ℕ
zeroed n = fill_from (λ _. 0) 0 n

-- `self_ok` and `block_ok` say whether the two calls of `calloc` succeed. `live` counts the
-- allocated blocks of the heap, and is returned beside the buffer.
pub new : ℕ → (self_ok block_ok : Bool) → ℕ → Option Qbuf × ℕ
new size self_ok block_ok live =
    let size' = if size == 0 then raw_size else size in
    if not self_ok
    then (none, live)
    else if not (block_ok && leb size' object_max)
    then (none, live + 1 - 1)
    else (
      some (record { rawbuf = zeroed size'; size = size'; offset_in = 0; offset_out = 0 }),
      live + 1 + 1,
    )

-- The number of live blocks that is left. Two calls of `free`, unless `self` is NULL.
pub delete : Option Qbuf → ℕ → ℕ
delete none live = live
delete (some self) live = live - 1 - 1

-- The result is true for 0 and false for -1.
pub realloc : Qbuf → ℕ → Grant → Bool × Qbuf
realloc self len answer = elim (grant len answer) [
  | none ↦ (false, self)
  | some fill ↦ (true, record self { rawbuf = resize self.rawbuf len fill; size = len })
]

-- `rawbuf + offset_out` and `rawbuf + offset_in`, as positions in the block.
pub rawbuf_out_pos : Qbuf → ℕ
rawbuf_out_pos self = self.offset_out

pub rawbuf_in_pos : Qbuf → ℕ
rawbuf_in_pos self = self.offset_in

-- `qbuf_size`
pub block_size : Qbuf → ℕ
block_size self = self.size

pub garbage : Qbuf → ℕ
garbage self = self.offset_out

unfoldable pub used : Qbuf → ℕ
used self = sub_size self.offset_in self.offset_out

unfoldable pub spare : Qbuf → ℕ
spare self = sub_size self.size self.offset_in

abbrev pub policy_none : ℕ
policy_none = 0

abbrev pub policy_less_spare : ℕ
policy_less_spare = 1

abbrev pub policy_large_garbage : ℕ
policy_large_garbage = 2

-- `policy & flag`
abbrev pub asks : ℕ → ℕ → Bool
asks policy flag = not (bit_and policy flag == 0)

-- The local variable `policy_do` of `qbuf_collect` when the two tests are through.
pub policy_do : Qbuf → ℕ → Bool
unfolding spare garbage
policy_do self policy =
    not (asks policy policy_less_spare && ltb (quarter self.size) (spare self))
    && not (asks policy policy_large_garbage && ltb (garbage self) (quarter self.size))

pub collect : Qbuf → ℕ → ℕ × Qbuf
unfolding policy_do used spare rawbuf_out_pos
collect self policy =
    let self' =
      if used self == 0
      then record self { offset_in = 0; offset_out = 0 }
      else if policy_do self policy
      then record self {
        rawbuf =
            overwrite 0 (take (used self) (drop (rawbuf_out_pos self) self.rawbuf)) self.rawbuf;
        offset_in = used self;
        offset_out = 0;
      }
      else self in
    (spare self', self')

pub offset_out_head : Qbuf → ℕ → ℕ × Qbuf
unfolding used
offset_out_head self len =
    let out = add_size self.offset_out len in
    let self' = record self {
      offset_out = if ltb self.offset_in out then self.offset_in else out;
    } in
    (used self', self')

pub offset_in_head : Qbuf → ℕ → ℕ × Qbuf
unfolding spare
offset_in_head self len =
    let head = add_size self.offset_in len in
    let self' = record self { offset_in = if ltb self.size head then self.size else head } in
    (spare self', self')

-- The number of bytes copied, and those bytes.
pub peek : Qbuf → ℕ → ℕ × List ℕ
unfolding used rawbuf_out_pos
peek self len =
    let len_can_out = if leb len (used self) then len else used self in
    (len_can_out, take len_can_out (drop (rawbuf_out_pos self) self.rawbuf))

-- `nread` is an `int`. What is returned: the count, the bytes copied, and the buffer.
pub read : Qbuf → ℕ → ℕ × List ℕ × Qbuf
read self len =
    let (copied, bytes) = peek self len in
    let nread = through_int copied in (nread, bytes, (offset_out_head self nread).1)

-- `self->size > len ? self->size<<1 : len<<1`
pub new_size : ℕ → ℕ → ℕ
new_size size len = if ltb len size then double_size size else double_size len

-- The first two statements of `qbuf_write`: make room by moving, then by growing.
pub make_room : Qbuf → ℕ → Grant → Qbuf
make_room self len answer =
    let moved = if ltb (spare self) len then (collect self policy_none).1 else self in
    if ltb (spare moved) len then (realloc moved (new_size moved.size len) answer).1 else moved

-- `src` is the `len` bytes at `buf`, and `answer` what `realloc` gives if it is called.
pub write : Qbuf → List ℕ → Grant → ℕ × Qbuf
write self src answer =
    let len = length src in
    let roomy = make_room self len answer in
    let len_can_in = if leb len (spare roomy) then len else spare roomy in
    let filled = record roomy {
      rawbuf = overwrite (rawbuf_in_pos roomy) (take len_can_in src) roomy.rawbuf;
    } in
    (len_can_in, (offset_in_head filled len_can_in).1)

-- ===== src/Base/Words.antt =====
-- The machine words of the C code: a 64-bit `size_t`, and its passage through a 32-bit `int`.
use Prim.Native.Nat.{ℕ, ◌+◌, ◌-◌, ◌*◌, ◌%◌, ◌/◌, ◌^◌}
use libzio.Base.Tests.{ltb, if◌then◌else◌}

-- The number of values of a `size_t`.
abbrev pub size_mod : ℕ
size_mod = 2 ^ 64

-- No object of C is larger: the bound of `ptrdiff_t`, above which every allocation fails.
abbrev pub object_max : ℕ
object_max = 2 ^ 63 - 1

-- `a + b`, `a - b` and `a << 1` at `size_t`, for operands that are one.
abbrev pub add_size : ℕ → ℕ → ℕ
add_size a b = (a + b) % size_mod

abbrev pub sub_size : ℕ → ℕ → ℕ
sub_size a b = (a + size_mod - b) % size_mod

abbrev pub double_size : ℕ → ℕ
double_size a = a * 2 % size_mod

-- `a >> 2`
abbrev pub quarter : ℕ → ℕ
quarter a = a / 4

-- The `size_t` that `int n = a;` becomes when `n` is used as a `size_t` again: the low 32 bits of
-- `a`, with the sign bit copied upwards.
abbrev pub through_int : ℕ → ℕ
through_int a = if ltb (a % 2 ^ 32) (2 ^ 31) then a % 2 ^ 32 else a % 2 ^ 32 + (2 ^ 64 - 2 ^ 32)

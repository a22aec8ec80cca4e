-- ===== src/Effects.antt =====
-- The effects of the C code as values: a state that calls read and write, and the ways in which a
-- call does not return.
pub mod Keeps
use libzio.Base.{ℕ, Bool, true, false, ◌≡◌, Option, none, some, if◌then◌else◌}

-- `abort` is a failed `assert`. `fault` is an access that C leaves undefined: through a poisoned or
-- dangling pointer, or out of bounds. `stuck` means that the fuel of a loop ran
-- out, or that the run waits for a lock that nobody will release.
pub data Outcome (A : Type 0) : Type 0 where
  ok : A → Outcome A
  abort fault stuck : Outcome A

abbrev pub M : Type 0 → Type 0 → Type 0
M S A = S → Outcome (A × S)

abbrev pub pure : {S A : Type 0} → A → M S A
pure a s = ok (a, s)

-- The rest of a run, after a part whose outcome is known.
abbrev pub and_then : {S A B : Type 0} → Outcome (A × S) → (A → M S B) → Outcome (B × S)
and_then (ok (a, s)) f = f a s
and_then abort f = abort
and_then fault f = fault
and_then stuck f = stuck

infixl 5 ◌>>=◌ ◌>>◌
abbrev pub ◌>>=◌ : {S A B : Type 0} → M S A → (A → M S B) → M S B
◌>>=◌ m f s = and_then (m s) f

abbrev pub ◌>>◌ : {S B : Type 0} → M S (Unit {0}) → M S B → M S B
m >> k = m >>= λ _. k

abbrev pub get : {S : Type 0} → M S S
get s = ok (s, s)

abbrev pub modify : {S : Type 0} → (S → S) → M S (Unit {0})
modify f s = ok (tt, f s)

abbrev pub skip : {S : Type 0} → M S (Unit {0})
skip s = ok (tt, s)

-- `assert(b)`, which the build leaves in.
abbrev pub assert : {S : Type 0} → Bool → M S (Unit {0})
assert true s = ok (tt, s)
assert false s = abort

-- An access that is defined only if `b` holds.
abbrev pub defined : {S : Type 0} → Bool → M S (Unit {0})
defined true s = ok (tt, s)
defined false s = fault

-- A call whose result is not used.
abbrev pub ignore : {S A : Type 0} → M S A → M S (Unit {0})
ignore m s = and_then (m s) λ _ s'. ok (tt, s')

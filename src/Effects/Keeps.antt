-- ===== src/Effects/Keeps.antt =====
-- Invariants of runs: what holds before a call holds after it, if it returns.
use libzio.Base.{◌≡◌, refl, Option, none, some, Bool, true, false, if◌then◌else◌}
use libzio.Effects.{Outcome, ok, abort, fault, stuck, M, ◌>>=◌, and_then}

-- `P` holds of the result and the state that a run ends with, if it returns, and `bad` if it is
-- stuck.
abbrev pub Within : {S A : Type 0} → Type 0 → (A → S → Type 0) → Outcome (A × S) → Type 0
Within bad P (ok (a, s)) = P a s
Within bad P abort = Unit
Within bad P fault = Unit
Within bad P stuck = bad

-- `P` holds of the result and the state that a run ends with, if it returns.
abbrev pub After : {S A : Type 0} → (A → S → Type 0) → Outcome (A × S) → Type 0
After P o = Within Unit P o

-- The run is never stuck, and `P` holds of the result and the state, if it returns.
abbrev pub Ends : {S A : Type 0} → (A → S → Type 0) → Outcome (A × S) → Type 0
Ends P o = Within ⊥ P o

-- The run returns, and `P` holds of the result and the state that it ends with.
abbrev pub Returns : {S A : Type 0} → (A → S → Type 0) → Outcome (A × S) → Type 0
Returns P (ok (a, s)) = P a s
Returns P abort = ⊥
Returns P fault = ⊥
Returns P stuck = ⊥

pub Returns-ok :
    {S A : Type 0} (P : A → S → Type 0) (o : Outcome (A × S))
    → Returns P o
    → (a : A) × (s : S) × (o ≡ ok (a, s)) × P a s
Returns-ok P (ok (a, s)) h = (a, s, refl, h)
Returns-ok P abort h = absurd h
Returns-ok P fault h = absurd h
Returns-ok P stuck h = absurd h

pub Returns-weaker :
    {S A : Type 0} (P Q : A → S → Type 0) (o : Outcome (A × S))
    → Returns P o
    → ((a : A) (s : S) → P a s → Q a s)
    → Returns Q o
Returns-weaker P Q (ok (a, s)) h k = k a s h
Returns-weaker P Q abort h k = absurd h
Returns-weaker P Q fault h k = absurd h
Returns-weaker P Q stuck h k = absurd h

pub Returns-and_then :
    {S A B : Type 0} (P : A → S → Type 0) (Q : B → S → Type 0) (o : Outcome (A × S)) (f : A → M S B)
    → Returns P o
    → ((a : A) (s : S) → P a s → Returns Q (f a s))
    → Returns Q (and_then o f)
Returns-and_then P Q (ok (a, s)) f h k = k a s h
Returns-and_then P Q abort f h k = absurd h
Returns-and_then P Q fault f h k = absurd h
Returns-and_then P Q stuck f h k = absurd h

abbrev pub KeepsIn : {S A : Type 0} → Type 0 → (S → Type 0) → M S A → Type 0
KeepsIn {S} bad I m = (s : S) → I s → Within bad (λ _. I) (m s)

abbrev pub Keeps : {S A : Type 0} → (S → Type 0) → M S A → Type 0
Keeps I m = KeepsIn Unit I m

module _ (bad : Type 0) where
  pub and_then-Within :
      {S A B : Type 0} (P : A → S → Type 0) (Q : B → S → Type 0) (o : Outcome (A × S))
      (f : A → M S B)
      → Within bad P o
      → ((a : A) (s : S) → P a s → Within bad Q (f a s))
      → Within bad Q (and_then o f)
  and_then-Within P Q (ok (a, s)) f h k = k a s h
  and_then-Within P Q abort f h k = tt
  and_then-Within P Q fault f h k = tt
  and_then-Within P Q stuck f h k = h

  pub branch_in :
      {S A : Type 0} (I : S → Type 0) (b : Bool) (m n : M S A)
      → KeepsIn bad I m
      → KeepsIn bad I n
      → KeepsIn bad I (if b then m else n)
  branch_in I true m n h k = h
  branch_in I false m n h k = k

  pub Within-weaker :
      {S A : Type 0} (P Q : A → S → Type 0) (o : Outcome (A × S))
      → Within bad P o
      → ((a : A) (s : S) → P a s → Q a s)
      → Within bad Q o
  Within-weaker P Q (ok (a, s)) h k = k a s h
  Within-weaker P Q abort h k = tt
  Within-weaker P Q fault h k = tt
  Within-weaker P Q stuck h k = h

  -- The two branches may leave different states.
  pub either_way :
      {S A : Type 0} (P : A → S → Type 0) (b : Bool) (m n : M S A) (s : S)
      → Within bad P (m s)
      → Within bad P (n s)
      → Within bad P ((if b then m else n) s)
  either_way P true m n s h k = h
  either_way P false m n s h k = k

  pub either_case :
      {S A : Type 0} (P : A → S → Type 0) (b : Bool) (m n : M S A) (s : S)
      → (b ≡ true → Within bad P (m s))
      → (b ≡ false → Within bad P (n s))
      → Within bad P ((if b then m else n) s)
  either_case P true m n s h k = h refl
  either_case P false m n s h k = k refl

  pub split_in :
      {S A B : Type 0} (I : S → Type 0) (o : Option A) (m : M S B) (f : A → M S B)
      → KeepsIn bad I m
      → ((a : A) → o ≡ some a → KeepsIn bad I (f a))
      → KeepsIn bad I (elim o [ none ↦ m | some a ↦ f a ])
  split_in I none m f h k = h
  split_in I (some a) m f h k = k a refl

-- The same where nothing is said of a run that is stuck.
pub and_then-After :
    {S A B : Type 0} (P : A → S → Type 0) (Q : B → S → Type 0) (o : Outcome (A × S)) (f : A → M S B)
    → After P o
    → ((a : A) (s : S) → P a s → After Q (f a s))
    → After Q (and_then o f)
and_then-After P Q o f h k = and_then-Within Unit P Q o f h k

module _ {S A B : Type 0} (I : S → Type 0) where
  pub bind : (m : M S A) (f : A → M S B) → Keeps I m → ((a : A) → Keeps I (f a)) → Keeps I (m >>= f)
  bind m f h k s i = and_then-After (λ _. I) (λ _. I) (m s) f (h s i) k

  pub split_option :
      (o : Option A) (m : M S B) (f : A → M S B)
      → Keeps I m
      → ((a : A) → o ≡ some a → Keeps I (f a))
      → Keeps I (elim o [ none ↦ m | some a ↦ f a ])
  split_option o m f h k = split_in Unit I o m f h k

module _ {S A : Type 0} (I : S → Type 0) where
  pub branch : (b : Bool) (m n : M S A) → Keeps I m → Keeps I n → Keeps I (if b then m else n)
  branch b m n h k = branch_in Unit I b m n h k

pub After-any : {S A : Type 0} (o : Outcome (A × S)) → After (λ _ _. Unit {0}) o
After-any (ok (a, s)) = tt
After-any abort = tt
After-any fault = tt
After-any stuck = tt

-- Two runs that go on in the same way are the same run.
pub and_then-same :
    {S A B : Type 0} (P : A → S → Type 0) (o : Outcome (A × S)) (f g : A → M S B)
    → After P o
    → ((a : A) (s : S) → P a s → f a s ≡ g a s)
    → and_then o f ≡ and_then o g
and_then-same P (ok (a, s)) f g h k = k a s h
and_then-same P abort f g h k = refl
and_then-same P fault f g h k = refl
and_then-same P stuck f g h k = refl

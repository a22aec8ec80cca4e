-- ===== src/Links/Walk.antt =====
-- Walks over the lists of src/list.h: where `list_for_each_entry` goes on, also when entries have
-- been added at the front or taken out.
use libzio.Base.{
  eq_of_==, Bool-cases, inl, inr, ℕ, ◌≡◌, refl, ap, ◌∙◌, false, List, [], ◌∷◌, ◌++◌, arith, ◌==◌,
  ==-true,
}
use libzio.Links.{behind, first_of_list, linked, erase}

-- Every entry is linked once.
abbrev pub Distinct : List ℕ → Type 0
Distinct [] = Unit
Distinct (m ∷ l) = (linked m l ≡ false) × Distinct l

behind-skip : (m y : ℕ) (l : List ℕ) → (m == y) ≡ false → behind m (y ∷ l) ≡ behind m l
behind-skip m y [] e = rw e refl
behind-skip m y (z ∷ l) e = rw e refl

behind-here : (m : ℕ) (l : List ℕ) → behind m (m ∷ l) ≡ first_of_list l
behind-here m [] = rw (==-true m m refl) refl
behind-here m (z ∷ l) = rw (==-true m m refl) refl

pub behind-append :
    (m : ℕ) (pre suf : List ℕ)
    → linked m pre ≡ false
    → behind m (pre ++ m ∷ suf) ≡ first_of_list suf
behind-append m [] suf h = behind-here m suf
behind-append m (y ∷ pre) suf h =
    behind-skip m y (pre ++ m ∷ suf) (ground arith) ∙ behind-append m pre suf (ground arith)

linked-middle : (y m : ℕ) (pre suf : List ℕ) → linked y (pre ++ m ∷ suf) ≡ false → (m == y) ≡ false
linked-middle y m [] suf h = ground arith
linked-middle y m (z ∷ pre) suf h = linked-middle y m pre suf (ground arith)

pub Distinct-middle : (m : ℕ) (pre suf : List ℕ) → Distinct (pre ++ m ∷ suf) → linked m pre ≡ false
Distinct-middle m [] suf d = refl
Distinct-middle m (y ∷ pre) suf d =
    rw (linked-middle y m pre suf d.0) (Distinct-middle m pre suf d.1)

pub erase-append :
    (m : ℕ) (pre suf : List ℕ) → linked m pre ≡ false → erase m (pre ++ m ∷ suf) ≡ pre ++ suf
erase-append m [] suf h = rw (==-true m m refl) refl
erase-append m (y ∷ pre) suf h =
    let other : (m == y) ≡ false = ground arith in
    rw other (ap (λ l. y ∷ l) (erase-append m pre suf (ground arith)))

linked-without :
    (y m : ℕ) (pre suf : List ℕ) → linked y (pre ++ m ∷ suf) ≡ false → linked y (pre ++ suf) ≡ false
linked-without y m [] suf h = ground arith
linked-without y m (z ∷ pre) suf h = ground (arith, linked-without y m pre suf)

-- A list of distinct entries without one of them.
pub Distinct-without :
    (m : ℕ) (pre suf : List ℕ) → Distinct (pre ++ m ∷ suf) → Distinct (pre ++ suf)
Distinct-without m [] suf d = d.1
Distinct-without m (y ∷ pre) suf d =
    (linked-without y m pre suf d.0, Distinct-without m pre suf d.1)

-- An entry that is taken out is gone.
pub erase-gone : (m : ℕ) (l : List ℕ) → Distinct l → linked m (erase m l) ≡ false
erase-gone m [] d = refl
erase-gone m (y ∷ l) d = elim (Bool-cases (m == y)) [
  | inl e ↦ rw (e, eq_of_== m y e) d.0
  | inr e ↦ rw (e, e) (erase-gone m l d.1)
]

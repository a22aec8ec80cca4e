-- ===== src/Links.antt =====
-- The circular lists of src/list.h, a copy of the Linux kernel's, as the code of this repository
-- calls them. A list is known by its entries in the order of a traversal, an entry by its address.
pub mod Walk
use libzio.Base.{refl, ℕ, ◌≡◌, List, [], ◌∷◌, Bool, false, ◌==◌, ◌||◌, if◌then◌else◌}

-- Where a cursor stands after a step of `list_for_each_entry`: at an entry, back at the head, or
-- behind an entry that `list_del` has poisoned.
pub data Cursor : Type 0 where
  entry : ℕ → Cursor
  head : Cursor
  poison : Cursor

-- The entry behind `x`, and `poison` if `x` is not linked.
abbrev pub behind : ℕ → List ℕ → Cursor
behind x [] = poison
behind x (y ∷ []) = if x == y then head else poison
behind x (y ∷ z ∷ l) = if x == y then entry z else behind x (z ∷ l)

abbrev pub first_of_list : List ℕ → Cursor
first_of_list [] = head
first_of_list (x ∷ l) = entry x

abbrev pub erase : ℕ → List ℕ → List ℕ
erase x [] = []
erase x (y ∷ l) = if x == y then l else y ∷ erase x l

abbrev pub linked : ℕ → List ℕ → Bool
linked x [] = false
linked x (y ∷ l) = (x == y) || linked x l

-- The operations, and what the comments of list.h promise of them: `list_add` inserts a new entry
-- after the head, where nothing is promised of an entry that is linked already, `list_del` takes an entry out and poisons its pointers, and the two steps of
-- `list_for_each_entry` follow the `next` pointers.
pub record Links : Type 0 where
  pub list_add : ℕ → List ℕ → List ℕ
  pub list_del : ℕ → List ℕ → List ℕ
  pub list_first : List ℕ → Cursor
  pub list_next : ℕ → List ℕ → Cursor
  pub add_lem : (x : ℕ) (l : List ℕ) → linked x l ≡ false → list_add x l ≡ x ∷ l
  pub del_lem : (x : ℕ) (l : List ℕ) → list_del x l ≡ erase x l
  pub first_lem : (l : List ℕ) → list_first l ≡ first_of_list l
  pub next_lem : (x : ℕ) (l : List ℕ) → list_next x l ≡ behind x l

-- Lists that do what list.h documents.
abbrev pub kernel_links : Links
kernel_links = record {
  list_add = λ x l. x ∷ l;
  list_del = erase;
  list_first = first_of_list;
  list_next = behind;
  add_lem = λ x l new. refl;
  del_lem = λ x l. refl;
  first_lem = λ l. refl;
  next_lem = λ x l. refl;
}

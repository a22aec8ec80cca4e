-- ===== src/Serial/Sound/Frame.antt =====
-- Changes of the ports and managers of src/serial/serial_port.c that leave the list in order.
use libzio.Base.{
  ℕ, ◌≡◌, refl, ap, ap₂, sym, ◌∙◌, subst, true, false, none, some, List, [], ◌∷◌, ◌==◌,
  if◌then◌else◌, Bool-cases, inl, inr, ==-true,
}
use libzio.Links.{linked, erase}
use libzio.Serial.Registry.{named, registered}
use libzio.Serial.Sound.Entries.{
  device_of, Entries, named_lem, linked-there, linked-here, linked-cases,
}
use libzio.Serial.State.{Ptr, SerialManger, SerialWorld}

-- Of the managers on `l` with a port, `v` and `w` agree on the port and its device, and a mutex that
-- is free in `w` is free in `v`.
abbrev pub Agrees : SerialWorld → SerialWorld → List Ptr → Type 0
Agrees w v l =
    (m : Ptr) (sm : SerialManger) (d : ℕ)
    → linked m l ≡ true
    → w.managers m ≡ some sm
    → device_of (w.ports sm.t) ≡ some d
    → (sm' : SerialManger) × (v.managers m ≡ some sm')
      × (sm.mt ≡ false → sm'.mt ≡ false)
      × (device_of (v.ports sm'.t) ≡ some d)

pub Agrees-rest : (w v : SerialWorld) (m : Ptr) (l : List Ptr) → Agrees w v (m ∷ l) → Agrees w v l
Agrees-rest w v m l a n sm d h = a n sm d (linked-there n m l h)

pub same-registered :
    (w v : SerialWorld) (d : ℕ) (l : List Ptr)
    → Entries w l
    → Agrees w v l
    → registered v d l ≡ registered w d l
same-registered w v d [] es a = refl
same-registered w v d (m ∷ l) (e, es) a =
    let (sm', at, _, port) = a m e.manger e.device (linked-here m l) e.at e.port in
    let same : named v d m ≡ named w d m =
      named_lem v d e.device m at port ∙ sym (named_lem w d e.device m e.at e.port) in
    ap₂ (λ b r. if b then some m else r) same (same-registered w v d l es (Agrees-rest w v m l a))

pub Agrees-Entries : (w v : SerialWorld) (l : List Ptr) → Entries w l → Agrees w v l → Entries v l
Agrees-Entries w v [] es a = tt
Agrees-Entries w v (m ∷ l) (e, es) a =
    let (sm', at, free, port) = a m e.manger e.device (linked-here m l) e.at e.port in
    (
      record {
        once = e.once;
        manger = sm';
        device = e.device;
        at = at;
        free = free e.free;
        port = port;
        alone = same-registered w v e.device l es (Agrees-rest w v m l a) ∙ e.alone;
      },
      Agrees-Entries w v l es (Agrees-rest w v m l a),
    )

-- An entry less.
pub erase-linked : (y m : Ptr) (l : List Ptr) → linked y (erase m l) ≡ true → linked y l ≡ true
erase-linked y m [] h = h
erase-linked y m (z ∷ l) h = elim (Bool-cases (m == z)) [
  | inl e ↦ linked-there y z l (subst (λ b. linked y (if b then l else z ∷ erase m l) ≡ true) e h)
  | inr e ↦
      elim (linked-cases y z (erase m l)
        (subst (λ b. linked y (if b then l else z ∷ erase m l) ≡ true) e h)) [
          | inl same ↦ rw (==-true y z same) refl
          | inr there ↦ linked-there y z l (erase-linked y m l there)
        ]
]

pub not_linked : (y m : Ptr) (l : List Ptr) → linked y l ≡ false → linked y (erase m l) ≡ false
not_linked y m l h = elim (Bool-cases (linked y (erase m l))) [
  | inl e ↦ absurd (true_false (sym (erase-linked y m l e) ∙ h))
  | inr e ↦ e
]
  where
    true_false : true ≡ false → ⊥
    true_false e = cc

registered-erase :
    (w : SerialWorld) (d : ℕ) (m : Ptr) (l : List Ptr)
    → registered w d l ≡ none
    → registered w d (erase m l) ≡ none
registered-erase w d m [] h = h
registered-erase w d m (y ∷ l) h = elim (Bool-cases (named w d y)) [
  | inl e ↦ absurd (some_none (ap (λ b. if b then some y else registered w d l) (sym e) ∙ h))
  | inr e ↦
      let rest : registered w d l ≡ none =
        ap (λ b. if b then some y else registered w d l) (sym e) ∙ h in
      elim (Bool-cases (m == y)) [
        | inl f ↦ rw f rest
        | inr f ↦ rw (f, e) (registered-erase w d m l rest)
      ]
]
  where
    some_none : some y ≡ none → ⊥
    some_none f = cc

pub Entries-erase : (w : SerialWorld) (m : Ptr) (l : List Ptr) → Entries w l → Entries w (erase m l)
Entries-erase w m [] es = tt
Entries-erase w m (y ∷ l) (e, es) = elim (Bool-cases (m == y)) [
  | inl f ↦ rw f es
  | inr f ↦ rw f (
    record {
      once = not_linked y m l e.once;
      manger = e.manger;
      device = e.device;
      at = e.at;
      free = e.free;
      port = e.port;
      alone = registered-erase w e.device m l e.alone;
    },
    Entries-erase w m l es,
  )
]

-- ===== src/Serial/Sound/Entries.antt =====
-- When the list `serial_mangers` of src/serial/serial_port.c is in order, and what is found on it then.
use libzio.Base.{
  ℕ, ◌≡◌, ◌≢◌, ◌⊎◌, refl, ap, sym, ◌∙◌, Bool, true, false, Option, none, some, List, [], ◌∷◌, arith,
  ◌==◌, ==-true, eq_of_==, if◌then◌else◌, Bool-cases, inl, inr,
}
use libzio.Effects.{ok}
use libzio.Links.{Links, linked}
use libzio.Links.Walk.{Distinct}
use libzio.Serial.Port.{find_serial}
use libzio.Serial.Registry.{of_port, of_manger, named, registered, Known, find_serial_lem}
use libzio.Serial.State.{Ptr, Serial, SerialManger, SerialWorld}

-- The device of a port, if there is a port.
abbrev pub device_of : Option Serial → Option ℕ
device_of none = none
device_of (some s) = some s.backend_data.device

-- The manager `m` is linked once, it is allocated and its mutex is free, its port is allocated,
-- and no manager of the same device comes behind it in `l`.
pub record Entry (w : SerialWorld) (m : Ptr) (l : List Ptr) : Type 0 where
  pub once : linked m l ≡ false
  pub manger : SerialManger
  pub device : ℕ
  pub at : w.managers m ≡ some manger
  pub free : manger.mt ≡ false
  pub port : device_of (w.ports manger.t) ≡ some device
  pub alone : registered w device l ≡ none

abbrev pub Entries : SerialWorld → List Ptr → Type 0
Entries w [] = Unit
Entries w (m ∷ l) = Entry w m l × Entries w l

-- `g_mangers` is held or not, as `b` says, and the list is in order.
abbrev pub SoundAt : Bool → SerialWorld → Type 0
SoundAt b w = (w.g_mangers ≡ b) × Entries w w.serial_mangers

abbrev pub Sound : SerialWorld → Type 0
Sound w = SoundAt false w

pub Entries-Distinct : (w : SerialWorld) (l : List Ptr) → Entries w l → Distinct l
Entries-Distinct w [] e = tt
Entries-Distinct w (m ∷ l) (e, es) = (e.once, Entries-Distinct w l es)

port_of : (o : Option Serial) (d : ℕ) → device_of o ≡ some d → (s : Serial) × (o ≡ some s)
port_of none d e = absurd cc
port_of (some s) d e = (s, refl)

pub Entries-Known : (w : SerialWorld) (l : List Ptr) → Entries w l → Known w l
Entries-Known w [] e = tt
Entries-Known w (m ∷ l) (e, es) =
    let (s, at) = port_of (w.ports e.manger.t) e.device e.port in
    ((e.manger, s, e.at, at), Entries-Known w l es)

-- A test for a device through `device_of`.
abbrev same_device : ℕ → Option ℕ → Bool
same_device d none = false
same_device d (some e) = e == d

of_port-device_of : (d : ℕ) (o : Option Serial) → of_port d o ≡ same_device d (device_of o)
of_port-device_of d none = refl
of_port-device_of d (some s) = refl

-- A manager with the port at `t` is of the device that this port has.
pub named_lem :
    (w : SerialWorld) (d e : ℕ) (m : Ptr) {sm : SerialManger}
    → w.managers m ≡ some sm
    → device_of (w.ports sm.t) ≡ some e
    → named w d m ≡ (e == d)
named_lem w d e m {sm} at port =
    ap (of_manger w d) at ∙ of_port-device_of d (w.ports sm.t) ∙ ap (same_device d) port

-- The head of a list, or an entry behind it.
pub linked-cases :
    (m y : Ptr) (l : List Ptr) → linked m (y ∷ l) ≡ true → (m ≡ y) ⊎ (linked m l ≡ true)
linked-cases m y l h = elim (Bool-cases (m == y)) [
  | inl e ↦ inl (eq_of_== m y e)
  | inr e ↦ inr (ground (arith, h, e))
]

pub linked-there : (m y : Ptr) (l : List Ptr) → linked m l ≡ true → linked m (y ∷ l) ≡ true
linked-there m y l h = ground (arith, h)

pub linked-here : (m : Ptr) (l : List Ptr) → linked m (m ∷ l) ≡ true
linked-here m l = rw (==-true m m refl) refl

-- What is found is linked, and of the device.
pub registered-linked :
    (w : SerialWorld) (d : ℕ) (m : Ptr) (l : List Ptr)
    → registered w d l ≡ some m
    → (linked m l ≡ true) × (named w d m ≡ true)
registered-linked w d m [] e = absurd cc
registered-linked w d m (y ∷ l) e = by_name (named w d y) refl e (registered-linked w d m l)
  where
    by_name :
        (b : Bool)
        → named w d y ≡ b
        → (if b then some y else registered w d l) ≡ some m
        → (registered w d l ≡ some m → (linked m l ≡ true) × (named w d m ≡ true))
        → (linked m (y ∷ l) ≡ true) × (named w d m ≡ true)
    by_name true n f behind_y =
        let same : y ≡ m = ap (λ o. elim o [ none ↦ y | some x ↦ x ]) f in
        (rw (==-true m y (sym same)) refl, ap (named w d) (sym same) ∙ n)
    by_name false n f behind_y = let (there, name) = behind_y f in (linked-there m y l there, name)

-- If nothing is found, nothing on the list is of the device.
pub registered-none :
    (w : SerialWorld) (d : ℕ) (n : Ptr) (l : List Ptr)
    → registered w d l ≡ none
    → linked n l ≡ true
    → named w d n ≡ false
registered-none w d n [] e h = absurd cc
registered-none w d n (y ∷ l) e h = elim (Bool-cases (named w d y)) [
  | inl name ↦ absurd (some_none (ap (λ b. if b then some y else registered w d l) (sym name) ∙ e))
  | inr name ↦ elim (linked-cases n y l h) [
    | inl same ↦ ap (named w d) same ∙ name
    | inr there ↦
        registered-none w d n l (ap (λ b. if b then some y else registered w d l) (sym name) ∙ e)
          there
  ]
]
  where
    some_none : some y ≢ none
    some_none f = cc

-- On a list that is in order two managers of one device are the same.
pub unique :
    (w : SerialWorld) (l : List Ptr) (m n : Ptr) (d : ℕ)
    → Entries w l
    → linked m l ≡ true
    → linked n l ≡ true
    → named w d m ≡ true
    → named w d n ≡ true
    → m ≡ n
unique w [] m n d es a b e f = absurd cc
unique w (y ∷ l) m n d (entry, es) a b e f = elim (linked-cases m y l a) [
  | inl p ↦ elim (linked-cases n y l b) [
    | inl q ↦ p ∙ sym q
    | inr there ↦ absurd (clash n there (ap (named w d) (sym p) ∙ e) f)
  ]
  | inr here ↦ elim (linked-cases n y l b) [
    | inl q ↦ absurd (clash m here (ap (named w d) (sym q) ∙ f) e)
    | inr there ↦ unique w l m n d es here there e f
  ]
]
  where
    clash : (k : Ptr) → linked k l ≡ true → named w d y ≡ true → named w d k ≡ true → ⊥
    clash k there g h =
        let same : entry.device ≡ d =
          eq_of_== entry.device d (sym (named_lem w d entry.device y entry.at entry.port) ∙ g) in
        let other : named w d k ≡ false =
          registered-none w d k l (ap (λ d. registered w d l) (sym same) ∙ entry.alone) there in
        cc

-- The walk of `find_serial` over a list that is in order.
pub find_serial-ok :
    (links : Links) (w : SerialWorld) (d : ℕ)
    → Entries w w.serial_mangers
    → find_serial links d w ≡ ok (registered w d w.serial_mangers, w)
find_serial-ok links w d es =
    find_serial_lem links w d (Entries-Distinct w w.serial_mangers es)
      (Entries-Known w w.serial_mangers es)

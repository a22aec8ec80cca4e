-- ===== src/Serial/Registry.antt =====
-- `find_serial` of src/serial/serial_port.c: the walk over the list, and what it looks for.
use libzio.Base.{
  subst, ℕ, zero, suc, ◌≤◌, ◌≡◌, refl, ap, sym, ◌∙◌, Bool, false, Option, none, some, List, [], ◌∷◌,
  ◌++◌, append_assoc, arith, length, if◌then◌else◌, ◌==◌, Bool-cases, inl, inr,
}
use libzio.Effects.{ok}
use libzio.Links.{Links, behind, first_of_list}
use libzio.Links.Walk.{Distinct, Distinct-middle, behind-append}
use libzio.Serial.Line.{load_ctx-ok}
use libzio.Serial.Port.{find_from, find_serial}
use libzio.Serial.State.{Ptr, Serial, SerialManger, SerialWorld, load_sm}

abbrev pub of_port : ℕ → Option Serial → Bool
of_port device none = false
of_port device (some s) = s.backend_data.device == device

abbrev pub of_manger : SerialWorld → ℕ → Option SerialManger → Bool
of_manger w device none = false
of_manger w device (some sm) = of_port device (w.ports sm.t)

-- The manager `m` is of the device.
abbrev pub named : SerialWorld → ℕ → Ptr → Bool
named w device m = of_manger w device (w.managers m)

-- The first manager on the list that is of the device.
abbrev pub registered : SerialWorld → ℕ → List Ptr → Option Ptr
registered w device [] = none
registered w device (m ∷ l) = if named w device m then some m else registered w device l

-- The managers on the list and their ports are allocated.
abbrev pub Known : SerialWorld → List Ptr → Type 0
Known w [] = Unit
Known w (m ∷ l) =
    ((sm : SerialManger) × (s : Serial) × (w.managers m ≡ some sm) × (w.ports sm.t ≡ some s))
    × Known w l

pub load_sm-ok :
    (m : Ptr) (w : SerialWorld) {sm : SerialManger}
    → w.managers m ≡ some sm
    → load_sm m w ≡ ok (sm, w)
unfolding load_sm
load_sm-ok m w e = rw e refl

module _ (links : Links) (w : SerialWorld) (device : ℕ) where
  find_from-registered :
      (rounds : ℕ) (pre suf : List Ptr)
      → w.serial_mangers ≡ pre ++ suf
      → Distinct (pre ++ suf)
      → Known w suf
      → length suf ≤ rounds
      → find_from links rounds device (first_of_list suf) w ≡ ok (registered w device suf, w)
  unfolding find_from
  find_from-registered rounds pre [] l d k h = refl
  find_from-registered zero pre (m ∷ suf) l d k h = absurd (omega arith)
  find_from-registered (suc rounds) pre (m ∷ suf) l d k h =
      let (known, others) = k in
      let (sm, s, at, port) = known in
      let middle : (pre ++ m ∷ []) ++ suf ≡ pre ++ m ∷ suf = append_assoc pre (m ∷ []) suf in
      let next : links.list_next m w.serial_mangers ≡ first_of_list suf =
        links.next_lem m w.serial_mangers
        ∙ ap (behind m) l
        ∙ behind-append m pre suf (Distinct-middle m pre suf d) in
      let found : named w device m ≡ (s.backend_data.device == device) =
        ap (of_manger w device) at ∙ ap (of_port device) port in
      rw (load_sm-ok m w at, load_ctx-ok sm.t w port, found)
        (elim (Bool-cases (s.backend_data.device == device)) [
          | inl e ↦ rw e refl
          | inr e ↦
              rw (e, next)
                (find_from-registered rounds (pre ++ m ∷ []) suf (l ∙ sym middle)
                  (subst Distinct (sym middle) d) others (omega arith))
        ])

  -- `find_serial` returns, and gives the first manager on the list whose port is of the device, or
  -- NULL if there is none, as long as the list links each manager once, and the managers on it and
  -- their ports are allocated.
  pub find_serial_lem :
      Distinct w.serial_mangers
      → Known w w.serial_mangers
      → find_serial links device w ≡ ok (registered w device w.serial_mangers, w)
  unfolding find_serial
  find_serial_lem d k =
      rw (links.first_lem w.serial_mangers)
        (find_from-registered (length w.serial_mangers) [] w.serial_mangers refl d k (omega arith))

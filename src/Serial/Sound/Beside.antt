-- ===== src/Serial/Sound/Beside.antt =====
-- A port or a manager of src/serial/serial_port.c that comes new to a registry in order.
use libzio.Base.{
  ◌≡◌, refl, ap, sym, ◌∙◌, subst, Bool, false, none, some, List, [], ◌∷◌, ◌==◌, Bool-cases, inl,
  inr, eq_of_==,
}
use libzio.Links.{linked}
use libzio.Serial.Line.{put_ctx}
use libzio.Serial.Port.{NewAnswer}
use libzio.Serial.Sound.Backend.{Frees}
use libzio.Serial.Sound.Entries.{device_of, Entries, SoundAt}
use libzio.Serial.Sound.Frame.{Agrees, Agrees-Entries}
use libzio.Serial.State.{Ptr, Serial, SerialWorld}

-- `malloc` gives a block that is not in use.
pub record Fresh (answer : NewAnswer) (w : SerialWorld) : Type 0 where
  pub new_ctx : (p : Ptr) → answer.ctx ≡ some p → w.ports p ≡ none
  pub new_sm : (m : Ptr) → answer.sm ≡ some m → w.managers m ≡ none

pub flag-Entries :
    (b : Bool) (w : SerialWorld) (l : List Ptr)
    → Entries w l
    → Entries (record w { g_mangers = b }) l
flag-Entries b w l es =
    Agrees-Entries w (record w { g_mangers = b }) l es λ m sm d h at port. (sm, at, (λ e. e), port)

-- Nothing is changed but the port at `p`, and the other ports keep their devices.
pub record Beside (p : Ptr) (w v : SerialWorld) : Type 0 where
  pub managers : v.managers ≡ w.managers
  pub mangers : v.serial_mangers ≡ w.serial_mangers
  pub locked : v.g_mangers ≡ w.g_mangers
  pub ports : (q : Ptr) → (p == q) ≡ false → device_of (v.ports q) ≡ device_of (w.ports q)

-- A port that was not allocated is of no manager.
pub Beside-Agrees :
    (p : Ptr) (w v : SerialWorld) (l : List Ptr) → w.ports p ≡ none → Beside p w v → Agrees w v l
Beside-Agrees p w v l new t m sm d h at port =
    (sm, ap (λ f. f m) t.managers ∙ at, (λ e. e), t.ports sm.t other ∙ port)
  where
    none_some : none ≡ some d → ⊥
    none_some e = cc

    other : (p == sm.t) ≡ false
    other = elim (Bool-cases (p == sm.t)) [
      | inl same ↦
          absurd
            (none_some (sym (ap device_of (ap w.ports (sym (eq_of_== p sm.t same)) ∙ new)) ∙ port))
      | inr e ↦ e
    ]

pub Beside-Sound :
    {b : Bool} (p : Ptr) {w v : SerialWorld}
    → w.ports p ≡ none
    → Beside p w v
    → SoundAt b w
    → SoundAt b v
Beside-Sound {b} p {w} {v} new t (g, es) = (
  t.locked ∙ g,
  subst (Entries v) (sym t.mangers)
      (Agrees-Entries w v w.serial_mangers es (Beside-Agrees p w v w.serial_mangers new t)),
)

pub put_ctx-Beside :
    (p : Ptr) (z : Serial) (w v : SerialWorld) → Beside p w v → Beside p w (put_ctx p z v)
put_ctx-Beside p z w v t = record {
  managers = t.managers;
  mangers = t.mangers;
  locked = t.locked;
  ports = λ q e. rw e (t.ports q e);
}

pub itself-Beside : (p : Ptr) (w : SerialWorld) → Beside p w w
itself-Beside p w = record { managers = refl; mangers = refl; locked = refl; ports = λ q e. refl }

pub Frees-Beside : (p : Ptr) (w v u : SerialWorld) → Beside p w v → Frees p v u → Beside p w u
Frees-Beside p w v u t f = record {
  managers = f.managers ∙ t.managers;
  mangers = f.mangers ∙ t.mangers;
  locked = f.locked ∙ t.locked;
  ports = λ q e. ap device_of (f.others q e) ∙ t.ports q e;
}

-- A manager that was not allocated is not on the list.
pub not_listed :
    (w : SerialWorld) (m : Ptr) (l : List Ptr)
    → Entries w l
    → w.managers m ≡ none
    → linked m l ≡ false
not_listed w m [] es new = refl
not_listed w m (y ∷ l) (e, es) new = elim (Bool-cases (m == y)) [
  | inl same ↦ absurd (none_some (sym new ∙ ap w.managers (eq_of_== m y same) ∙ e.at))
  | inr other ↦ rw other (not_listed w m l es new)
]
  where
    none_some : none ≡ some e.manger → ⊥
    none_some f = cc

-- ===== src/Serial/Sound/Mangers.antt =====
-- Changes of one port or one manager of src/serial/serial_port.c keep the registry in order.
use libzio.Base.{
  ◌≡◌, refl, ap, sym, ◌∙◌, subst, Bool, false, Option, none, some, ◌==◌, Bool-cases, inl, inr,
  eq_of_==, ==-true,
}
use libzio.Effects.{ok, M, and_then}
use libzio.Effects.Keeps.{After, Keeps, Within-weaker, and_then-After}
use libzio.Serial.Line.{put_ctx, set_at_self}
use libzio.Serial.Port.{lock_sm, unlock_sm, change_locked}
use libzio.Serial.Sharing.{put_sm, held_sm, changed_sm, change_sm-ok}
use libzio.Serial.Sound.Backend.{Touches, device-Touches}
use libzio.Serial.Sound.Entries.{device_of, Entries, SoundAt}
use libzio.Serial.Sound.Frame.{Agrees-Entries}
use libzio.Serial.State.{
  Ptr, Serial, SerialManger, SerialWorld, load_sm, change_ctx, load_ctx, present,
}

pub Touches-Sound :
    {b : Bool} (p : Ptr) {w v : SerialWorld} → Touches p w v → SoundAt b w → SoundAt b v
Touches-Sound {b} p {w} {v} t (g, es) = (
  t.locked ∙ g,
  subst (Entries v) (sym t.mangers) (
      Agrees-Entries w v w.serial_mangers es λ m sm d h at port.
        (sm, ap (λ f. f m) t.managers ∙ at, (λ e. e), device-Touches p t sm.t ∙ port)),
)

-- A manager that keeps its port is changed with its mutex held.
pub changed-Sound :
    {b : Bool} (m : Ptr) (f : SerialManger → SerialManger) {sm : SerialManger} (w : SerialWorld)
    → w.managers m ≡ some sm
    → (f (held_sm sm)).t ≡ sm.t
    → SoundAt b w
    → SoundAt b (changed_sm m f sm w)
changed-Sound {b} m f {sm} w there same (g, es) =
    let v = changed_sm m f sm w in
    let after = record (f (held_sm sm)) { mt = false } in
    (
      g,
      Agrees-Entries w v w.serial_mangers es λ n sn d h at port. elim (Bool-cases (m == n)) [
        | inl here ↦
            let one : sm ≡ sn =
              ap (λ o. elim o [ none ↦ sm | some x ↦ x ])
                (sym there ∙ ap w.managers (eq_of_== m n here) ∙ at) in
            (
              after,
              rw here refl,
              (λ _. refl),
              ap (λ q. device_of (w.ports q)) (same ∙ ap (λ x. x.t) one) ∙ port,
            )
        | inr other ↦ (sn, rw other at, (λ e. e), port)
      ],
    )

pub put_ctx-Touches :
    (p : Ptr) (w : SerialWorld) {s : Serial} (z : Serial)
    → w.ports p ≡ some s
    → z.backend_data.device ≡ s.backend_data.device
    → Touches p w (put_ctx p z w)
put_ctx-Touches p w {s} z at same = record {
  managers = refl;
  mangers = refl;
  locked = refl;
  kept = rw (==-true p p refl) (ap some same ∙ sym (ap device_of at));
  others = λ q other. rw other refl;
}

pub load_sm-After :
    {B : Type 0} (Q : B → SerialWorld → Type 0) (m : Ptr) (f : SerialManger → M SerialWorld B)
    (w : SerialWorld)
    → ((sm : SerialManger) → w.managers m ≡ some sm → After Q (f sm w))
    → After Q (and_then (load_sm m w) f)
unfolding load_sm
load_sm-After Q m f w h = by_manger (w.managers m) refl
  where
    by_manger : (o : Option SerialManger) → w.managers m ≡ o → After Q (and_then (present o w) f)
    by_manger none e = tt
    by_manger (some sm) e = h sm e

-- The mutex of the manager was free, and is held.
abbrev pub Locked : Ptr → SerialWorld → SerialWorld → Type 0
Locked m w v = (sm : SerialManger) × (w.managers m ≡ some sm) × (v ≡ put_sm m (held_sm sm) w)

pub lock_sm-After : (m : Ptr) (w : SerialWorld) → After (λ _. Locked m w) (lock_sm m w)
unfolding lock_sm
lock_sm-After m w =
    load_sm-After (λ _. Locked m w) m _ w
      λ sm at. elim (Bool-cases sm.mt) [
        | inl e ↦ rw e tt
        | inr e ↦ rw (e, change_sm-ok m held_sm w at) (sm, at, refl)
      ]

-- A manager is there, and has been changed with its mutex held.
abbrev pub Changed : Ptr → (SerialManger → SerialManger) → SerialWorld → SerialWorld → Type 0
Changed m f w v = (sm : SerialManger) × (w.managers m ≡ some sm) × (v ≡ changed_sm m f sm w)

pub change_locked-After :
    (m : Ptr) (f : SerialManger → SerialManger) (w : SerialWorld)
    → After (λ _. Changed m f w) (change_locked m f w)
unfolding change_locked unlock_sm
change_locked-After m f w =
    and_then-After (λ _. Locked m w) (λ _. Changed m f w) (lock_sm m w) _ (lock_sm-After m w)
      λ _ v (sm, at, e).
        let w1 = put_sm m (held_sm sm) w in
        let w2 = put_sm m (f (held_sm sm)) w1 in
        rw
          (
            e,
            change_sm-ok m f w1 (set_at_self w.managers m (some (held_sm sm))),
            change_sm-ok m (λ sm. record sm { mt = false }) w2
                (set_at_self w1.managers m (some (f (held_sm sm)))),
          )
          (sm, at, refl)

pub change_locked-Sound :
    {b : Bool} (m : Ptr) (f : SerialManger → SerialManger)
    → ((sm : SerialManger) → (f sm).t ≡ sm.t)
    → Keeps (SoundAt b) (change_locked m f)
change_locked-Sound {b} m f same w i =
    Within-weaker Unit (λ _. Changed m f w) (λ _. SoundAt b) _ (change_locked-After m f w)
      λ _ v (sm, at, e). subst (SoundAt b) (sym e) (changed-Sound m f w at (same (held_sm sm)) i)

pub change_ctx-After :
    {B : Type 0} (Q : B → SerialWorld → Type 0) (p : Ptr) (f : Serial → Serial)
    (k : Unit {0} → M SerialWorld B) (w : SerialWorld)
    → ((s : Serial) → w.ports p ≡ some s → After Q (k tt (put_ctx p (f s) w)))
    → After Q (and_then (change_ctx p f w) k)
unfolding change_ctx load_ctx
change_ctx-After Q p f k w h = by_port (w.ports p) refl
  where
    by_port :
        (o : Option Serial)
        → w.ports p ≡ o
        → After Q (and_then (and_then (present o w) λ s v. ok (tt, put_ctx p (f s) v)) k)
    by_port none e = tt
    by_port (some s) e = h s e

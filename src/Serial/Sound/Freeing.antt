-- ===== src/Serial/Sound/Freeing.antt =====
-- `serial_destory` of src/serial/serial_port.c keeps the registry in order.
use libzio.Base.{
  ℕ, ◌≡◌, refl, ap, sym, ◌∙◌, subst, true, false, Option, none, some, ltb, ◌==◌, if◌then◌else◌,
  Bool-cases, inl, inr, eq_of_==, ==-true,
}
use libzio.Effects.{ok, M, and_then, ◌>>=◌, skip, modify, ◌>>◌}
use libzio.Effects.Keeps.{After, Keeps, branch, and_then-After, either_way, Within-weaker}
use libzio.Links.{Links, linked, erase}
use libzio.Links.Walk.{erase-gone}
use libzio.Serial.Line.{set_at_self}
use libzio.Serial.Port.{SerialBackend, lock_all, unlock_all, change_locked, serial_destory}
use libzio.Serial.Registry.{registered, named, of_manger}
use libzio.Serial.Sharing.{changed_sm, held_sm, one_left}
use libzio.Serial.Sound.Backend.{Behaves, Frees}
use libzio.Serial.Sound.Beside.{flag-Entries}
use libzio.Serial.Sound.Entries.{
  device_of, Entries, SoundAt, Sound, Entries-Distinct, named_lem, registered-linked,
  registered-none, unique,
}
use libzio.Serial.Sound.Frame.{Agrees-Entries, Entries-erase, erase-linked}
use libzio.Serial.Sound.Mangers.{load_sm-After, Changed, changed-Sound, change_locked-After}
use libzio.Serial.Sound.Using.{Found, find_manger-After}
use libzio.Serial.State.{load_sm, Ptr, SerialManger, Serial, SerialWorld, set_at}

-- A port of the device `d` at `ctx` is not that of another manager than one of this device.
other_port :
    (w : SerialWorld) (ctx n : Ptr) (d e : ℕ) {sn : SerialManger}
    → device_of (w.ports ctx) ≡ some d
    → w.managers n ≡ some sn
    → device_of (w.ports sn.t) ≡ some e
    → (named w d n ≡ true → ⊥)
    → (ctx == sn.t) ≡ false
other_port w ctx n d e {sn} here at port not_named = elim (Bool-cases (ctx == sn.t)) [
  | inl same ↦
      let there : device_of (w.ports sn.t) ≡ some d =
        ap (λ q. device_of (w.ports q)) (sym (eq_of_== ctx sn.t same)) ∙ here in
      absurd (not_named (named_lem w d d n at there ∙ ==-true d d refl))
  | inr other ↦ other
]

-- The manager of the port, and the port is of its device.
abbrev Owned : Ptr → Ptr → SerialWorld → Type 0
Owned ctx m w =
    SoundAt true w
    × ((d : ℕ) × (device_of (w.ports ctx) ≡ some d)
        × (linked m w.serial_mangers ≡ true)
        × (named w d m ≡ true))

module _ (links : Links) (backend : SerialBackend) (behaves : Behaves backend) (ctx : Ptr) where
  -- A port that no manager is for is freed.
  free_alone :
      (w : SerialWorld) (d : ℕ)
      → device_of (w.ports ctx) ≡ some d
      → registered w d w.serial_mangers ≡ none
      → SoundAt true w
      → SoundAt true (record w { ports = set_at w.ports ctx none })
  free_alone w d here none_found (g, es) = (
    g,
    Agrees-Entries w (record w { ports = set_at w.ports ctx none }) w.serial_mangers es
        λ n sn e h at port.
          let other : (ctx == sn.t) ≡ false = other_port w ctx n d e here at port λ y.
            absurd (true_false (sym y ∙ registered-none w d n w.serial_mangers none_found h)) in
          (sn, at, (λ x. x), rw other port),
  )
    where
      true_false : true ≡ false → ⊥
      true_false e = cc

  one_left-Owned : (m : Ptr) → Keeps (Owned ctx m) (change_locked m one_left)
  one_left-Owned m w (i, (d, here, on, name)) =
      Within-weaker Unit (λ _. Changed m one_left w) (λ _. Owned ctx m) _
        (change_locked-After m one_left w)
        λ _ v (sm, at, e). subst (Owned ctx m) (sym e) (
          let u = changed_sm m one_left sm w in
          (
            changed-Sound m one_left w at refl i,
            (
              d,
              here,
              on,
              ap (of_manger u d) (
                    set_at_self
                      (set_at (set_at w.managers m (some (held_sm sm))) m
                        (some (one_left (held_sm sm))))
                      m (some (record (one_left (held_sm sm)) { mt = false })))
                  ∙ sym (ap (of_manger w d) at)
                  ∙ name,
            ),
          ))

  -- The last reference is given up.
  unregister-Sound :
      (m : Ptr) (w : SerialWorld)
      → Owned ctx m w
      → After
          (λ _. SoundAt true)
          (and_then
            (backend.destory ctx (record w { serial_mangers = links.list_del m w.serial_mangers }))
            λ _ y. ok (tt, record y { managers = set_at y.managers m none }))
  unregister-Sound m w ((g, es), (d, here, on, name)) =
      let l = w.serial_mangers in
      and_then-After (λ _. Frees ctx (record w { serial_mangers = links.list_del m l }))
        (λ _. SoundAt true) _ _
        (behaves.destroying ctx (record w { serial_mangers = links.list_del m l }))
        λ _ y f.
          let z : SerialWorld = record y { managers = set_at y.managers m none } in
          (
            f.locked ∙ g,
            subst (Entries z) (sym (f.mangers ∙ links.del_lem m l)) (
                Agrees-Entries w z (erase m l) (Entries-erase w m l es) λ n sn e h at port.
                  let on_l : linked n l ≡ true = erase-linked n m l h in
                  let not_m : (m == n) ≡ false = other_entry n h in
                  let other : (ctx == sn.t) ≡ false = other_port w ctx n d e here at port λ y.
                    absurd (
                      true_false
                        (sym (==-true m n (unique w l m n d es on on_l name y)) ∙ not_m)) in
                  (
                    sn,
                    rw not_m (ap (λ k. k n) f.managers ∙ at),
                    (λ x. x),
                    ap device_of (f.others sn.t other) ∙ port,
                  )),
          )
    where
      true_false : true ≡ false → ⊥
      true_false e = cc

      other_entry : (n : Ptr) → linked n (erase m w.serial_mangers) ≡ true → (m == n) ≡ false
      other_entry n h = elim (Bool-cases (m == n)) [
        | inl same ↦ absurd (
            true_false (
              sym h
              ∙ ap (λ k. linked k (erase m w.serial_mangers)) (sym (eq_of_== m n same))
              ∙ erase-gone m w.serial_mangers (Entries-Distinct w w.serial_mangers es)))
        | inr other ↦ other
      ]

  -- `serial_destory` keeps the registry in order.
  pub destory-Sound : Keeps Sound (serial_destory links backend ctx)
  unfolding serial_destory lock_all unlock_all
  destory-Sound w (g, es) =
      let u : SerialWorld = record w { g_mangers = true } in
      let i : SoundAt true u = (refl, flag-Entries true w w.serial_mangers es) in
      rw g (
        and_then-After (Found ctx u) (λ _. Sound) _ _ (find_manger-After links ctx u i)
          λ o v (s, at, found, e). rw e (by_found u i s at o (sym found)))
    where
      destroyed : Option Ptr → M SerialWorld (Unit {0})
      destroyed o = elim o [
        | none ↦ do modify (λ w. record w { ports = set_at w.ports ctx none }); unlock_all
        | some m ↦ do
          sm ← load_sm m
          (if ltb 0 sm.refcount then change_locked m one_left else skip)
          sm ← load_sm m
          (if sm.refcount == 0
              then (do
                modify (λ w. record w { serial_mangers = links.list_del m w.serial_mangers })
                backend.destory ctx
                modify (λ w. record w { managers = set_at w.managers m none }))
              else skip)
          unlock_all
      ]

      by_found :
          (u : SerialWorld)
          → SoundAt true u
          → (s : Serial) → u.ports ctx ≡ some s
          → (o : Option Ptr) → registered u s.backend_data.device u.serial_mangers ≡ o
          → After (λ _. Sound) (destroyed o u)
      by_found u i s at none e =
          let j = free_alone u s.backend_data.device (ap device_of at) e i in
          (
            refl,
            flag-Entries false (record u { ports = set_at u.ports ctx none }) u.serial_mangers j.1,
          )
      by_found u i s at (some m) e =
          let on = registered-linked u s.backend_data.device m u.serial_mangers e in
          let owned : Owned ctx m u = (i, (s.backend_data.device, ap device_of at, on.0, on.1)) in
          load_sm-After (λ _. Sound) m _ u
            λ sm _.
              and_then-After (λ _. Owned ctx m) (λ _. Sound) _ _
                (branch (Owned ctx m) (ltb 0 sm.refcount) _ skip (one_left-Owned m) (λ _ k. k) u
                  owned)
                λ _ v k.
                  load_sm-After (λ _. Sound) m _ v
                    λ sm' _.
                      and_then-After (λ _. SoundAt true) (λ _. Sound) _ _
                        (either_way Unit (λ _. SoundAt true) (sm'.refcount == 0) _ skip v
                          (unregister-Sound m v k) k.0)
                        λ _ x l. (refl, flag-Entries false x x.serial_mangers l.1)

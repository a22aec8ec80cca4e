-- ===== src/Serial/Sound/Making.antt =====
-- `serial_new` of src/serial/serial_port.c keeps the registry in order, and what it answers.
use libzio.Base.{
  ℕ, ◌≡◌, refl, ap, sym, ◌∙◌, subst, Bool, true, false, not, ◌||◌, Option, none, some, ◌∷◌, ◌==◌,
  Bool-cases, inl, inr, eq_of_==,
}
use libzio.Effects.{M}
use libzio.Effects.Keeps.{After, Keeps, branch, and_then-After, either_way}
use libzio.Links.{linked, Links}
use libzio.Serial.Line.{change_ctx-ok, set_at_self, put_ctx}
use libzio.Serial.Port.{
  SerialBackend, NewAnswer, lock_all, unlock_all, add_serial, reuse, create, serial_new,
  closed_port, diverse, share,
}
use libzio.Serial.Registry.{registered}
use libzio.Serial.Sharing.{free_sm}
use libzio.Serial.Sound.Backend.{Behaves, Frees, load_ctx-After}
use libzio.Serial.Sound.Entries.{device_of, Entries, SoundAt, Sound, find_serial-ok}
use libzio.Serial.Sound.Frame.{Agrees, Agrees-Entries, same-registered}
use libzio.Serial.Sound.Mangers.{load_sm-After, change_locked-Sound}
use libzio.Serial.State.{Ptr, SerialRtu, Serial, SerialManger, SerialWorld, set_at}
use libzio.Serial.Unix.{parity_none, parity_even, parity_odd}
use libzio.Serial.Sound.Beside.{
  Fresh, flag-Entries, Beside, Beside-Agrees, Beside-Sound, put_ctx-Beside, itself-Beside,
  Frees-Beside, not_listed,
}

-- The port of a new block, with the first two parameters, and with all.
abbrev pub half_made : SerialRtu → Serial → Serial
half_made rtu s = record s {
  backend_data = record s.backend_data { device = rtu.device; baud = rtu.baud };
}

abbrev pub made_port : ℕ → SerialRtu → Serial → Serial
made_port share_mode rtu s = closed_port share_mode (record s.backend_data {
  parity = rtu.parity;
  data_bit = rtu.data_bit;
  stop_bit = rtu.stop_bit;
})

abbrev pub named_parity : ℕ → Bool
named_parity p = (p == parity_none) || ((p == parity_even) || (p == parity_odd))

-- A manager that is not allocated is not at the place of one that is.
other_place :
    (w : SerialWorld) (m n : Ptr) {sn : SerialManger}
    → w.managers m ≡ none
    → w.managers n ≡ some sn
    → (m == n) ≡ false
other_place w m n {sn} new there = elim (Bool-cases (m == n)) [
  | inl same ↦ absurd (none_some (sym new ∙ ap w.managers (eq_of_== m n same) ∙ there))
  | inr other ↦ other
]
  where
    none_some : none ≡ some sn → ⊥
    none_some f = cc

module _ {b : Bool} (links : Links) (backend : SerialBackend) (behaves : Behaves backend) where
  -- A new manager for a device that has none.
  add_serial-Sound :
      (ctx : Ptr) (o : Option Ptr) (w v : SerialWorld) (s : Serial)
      → SoundAt b w
      → w.ports ctx ≡ none
      → ((m : Ptr) → o ≡ some m → w.managers m ≡ none)
      → registered w s.backend_data.device w.serial_mangers ≡ none
      → Beside ctx w v
      → v.ports ctx ≡ some s
      → After (λ _. SoundAt b) (add_serial links ctx o v)
  unfolding add_serial
  add_serial-Sound ctx none w v s i new sm none_yet t at = tt
  add_serial-Sound ctx (some m) w v s (g, es) new sm none_yet t at =
      let l = w.serial_mangers in
      let u : SerialWorld = record v {
        managers = set_at v.managers m (some (free_sm ctx 1 0));
        serial_mangers = links.list_add m v.serial_mangers;
      } in
      let listed : u.serial_mangers ≡ m ∷ l =
        links.add_lem m v.serial_mangers (ap (linked m) t.mangers ∙ not_listed w m l es (sm m refl))
        ∙ ap (λ l. m ∷ l) t.mangers in
      let agrees : Agrees w u l = λ n sn d h there port.
        let (sn', there', free, port') = Beside-Agrees ctx w v l new t n sn d h there port in
        (sn', rw (other_place w m n (sm m refl) there) there', free, port') in
      (
        t.locked ∙ g,
        subst (Entries u) (sym listed) (
          record {
            once = not_listed w m l es (sm m refl);
            manger = free_sm ctx 1 0;
            device = s.backend_data.device;
            at = set_at_self v.managers m (some (free_sm ctx 1 0));
            free = refl;
            port = ap device_of at;
            alone = same-registered w u s.backend_data.device l es agrees ∙ none_yet;
          },
          Agrees-Entries w u l es agrees,
        ),
      )

  -- The branch of `serial_new` for a device that has no manager.
  create-Sound :
      (rtu : SerialRtu) (share_mode : ℕ) (answer : NewAnswer) (w : SerialWorld)
      → Fresh answer w
      → registered w rtu.device w.serial_mangers ≡ none
      → SoundAt b w
      → After (λ _. SoundAt b) (create links backend rtu share_mode answer w)
  unfolding create
  create-Sound rtu share_mode answer w fresh none_yet i = by_block answer.ctx fresh.new_ctx
    where
      by_block :
          (o : Option Ptr)
          → ((p : Ptr) → o ≡ some p → w.ports p ≡ none)
          → After
              (λ _. SoundAt b)
              (create links backend rtu share_mode (record answer { ctx = o }) w)
      by_block none new = tt
      by_block (some ctx) new =
          let u0 = put_ctx ctx answer.junk w in
          let u1 = put_ctx ctx (half_made rtu answer.junk) u0 in
          let u2 = put_ctx ctx (made_port share_mode rtu (half_made rtu answer.junk)) u1 in
          let beside : Beside ctx w u1 =
            put_ctx-Beside ctx (half_made rtu answer.junk) w u0
              (put_ctx-Beside ctx answer.junk w w (itself-Beside ctx w)) in
          rw (change_ctx-ok ctx (half_made rtu) u0 (set_at_self w.ports ctx (some answer.junk))) (
            either_way Unit (λ _. SoundAt b) (not (named_parity rtu.parity)) _ _ u1
              (and_then-After (λ _. Frees ctx u1) (λ _. SoundAt b) _ _ (behaves.destroying ctx u1)
                λ _ v f. Beside-Sound ctx (new ctx refl) (Frees-Beside ctx w u1 v beside f) i)
              (rw
                (change_ctx-ok ctx (made_port share_mode rtu) u1
                  (set_at_self u0.ports ctx (some (half_made rtu answer.junk))))
                (and_then-After (λ _. SoundAt b) (λ _. SoundAt b) _ _
                  (add_serial-Sound ctx answer.sm w u2
                    (made_port share_mode rtu (half_made rtu answer.junk)) i (new ctx refl)
                    fresh.new_sm none_yet
                    (put_ctx-Beside ctx (made_port share_mode rtu (half_made rtu answer.junk)) w u1
                      beside)
                    (set_at_self u1.ports ctx
                      (some (made_port share_mode rtu (half_made rtu answer.junk)))))
                  λ _ _ j. j)))

  -- The branch for a device that has one.
  reuse-Sound :
      (m : Ptr) (rtu : SerialRtu) (share_mode : ℕ)
      → Keeps (SoundAt b) (reuse links m rtu share_mode)
  unfolding reuse
  reuse-Sound m rtu share_mode w i =
      load_sm-After (λ _. SoundAt b) m _ w
        λ sm at.
          load_ctx-After (λ _. SoundAt b) sm.t _ w
            λ s there.
              branch (SoundAt b) ((share_mode == 0) || (s.share_mode == 0)) _ _ (λ _ j. j)
                (branch (SoundAt b) (diverse s.backend_data rtu) _ _ (λ _ j. j)
                  (λ v j.
                    and_then-After (λ _. SoundAt b) (λ _. SoundAt b) _ _
                      (change_locked-Sound m share (λ _. refl) v j) λ _ _ k. k))
                w i

module _ (links : Links) (backend : SerialBackend) (behaves : Behaves backend) where
  -- `serial_new` keeps the registry in order.
  pub new-Sound :
      (rtu : SerialRtu) (share_mode : ℕ) (answer : NewAnswer) (w : SerialWorld)
      → Fresh answer w
      → Sound w
      → After (λ _. Sound) (serial_new links backend rtu share_mode answer w)
  unfolding serial_new lock_all unlock_all
  new-Sound rtu share_mode answer w fresh (g, es) =
      let u : SerialWorld = record w { g_mangers = true } in
      let i : SoundAt true u = (refl, flag-Entries true w w.serial_mangers es) in
      let made : After (λ _. SoundAt true)
          ((elim (registered u rtu.device w.serial_mangers) as (λ _. M SerialWorld (Option Ptr)) [
            | none ↦ create links backend rtu share_mode answer
            | some m ↦ reuse links m rtu share_mode
          ])
            u) =
        by_found u i (record { new_ctx = fresh.new_ctx; new_sm = fresh.new_sm })
          (registered u rtu.device w.serial_mangers) refl in
      rw (g, find_serial-ok links u rtu.device i.1)
        (and_then-After (λ _. SoundAt true) (λ _. Sound) _ _ made
          λ _ v j. (refl, flag-Entries false v v.serial_mangers j.1))
    where
      by_found :
          (u : SerialWorld)
          → SoundAt true u
          → Fresh answer u
          → (o : Option Ptr) → registered u rtu.device u.serial_mangers ≡ o
          → After
              (λ _. SoundAt true)
              ((elim o as (λ _. M SerialWorld (Option Ptr)) [
                | none ↦ create links backend rtu share_mode answer
                | some m ↦ reuse links m rtu share_mode
              ])
                u)
      by_found u i new none e = create-Sound links backend behaves rtu share_mode answer u new e i
      by_found u i new (some m) e = reuse-Sound links backend behaves m rtu share_mode u i

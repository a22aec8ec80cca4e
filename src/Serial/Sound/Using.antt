-- ===== src/Serial/Sound/Using.antt =====
-- `serial_open`, `serial_close`, `serial_read`, `serial_write` and `serial_clean` of
-- src/serial/serial_port.c keep the registry in order.
use libzio.Base.{
  ℕ, suc, ◌≡◌, refl, sym, subst, Bool, true, false, Option, none, some, List, ltb, ◌==◌,
}
use libzio.Base.Int.{ℤ}
use libzio.Effects.{M, and_then, skip}
use libzio.Effects.Keeps.{After, Keeps, branch, split_option, Within-weaker, and_then-After}
use libzio.Links.{Links}
use libzio.Serial.Line.{put_ctx, set_at_self}
use libzio.Serial.Port.{
  SerialBackend, find_manger, lock_sm, unlock_sm, count_open, serial_open, serial_close,
  serial_read, serial_write, serial_clean, serial_set_debug,
}
use libzio.Serial.Registry.{registered}
use libzio.Serial.Sharing.{put_sm, held_sm, changed_sm, change_sm-ok}
use libzio.Serial.Sound.Backend.{
  change_ctx-Touches, touched_itself, Touches, Behaves, load_ctx-After,
}
use libzio.Serial.Sound.Entries.{SoundAt, find_serial-ok}
use libzio.Serial.State.{Ptr, Serial, SerialManger, SerialWorld}
use libzio.Serial.Sound.Mangers.{
  Touches-Sound, changed-Sound, put_ctx-Touches, load_sm-After, Locked, lock_sm-After,
  change_locked-Sound, change_ctx-After,
}

-- What `find_serial` finds on a list in order, for the device of the port.
abbrev pub Found : Ptr → SerialWorld → Option Ptr → SerialWorld → Type 0
Found ctx w o v =
    (s : Serial) × (w.ports ctx ≡ some s)
    × (o ≡ registered w s.backend_data.device w.serial_mangers)
    × (v ≡ w)

module _ {b : Bool} (links : Links) where
  -- One more open is counted, and the port is marked, with the mutex of the manager held.
  count_open-Sound : (ctx m : Ptr) → Keeps (SoundAt b) (count_open links ctx m)
  unfolding count_open unlock_sm
  count_open-Sound ctx m w i =
      and_then-After (λ _. Locked m w) (λ _. SoundAt b) (lock_sm m w) _ (lock_sm-After m w)
        λ _ v (sm, at, e).
          let more : SerialManger → SerialManger =
            λ sm. record sm { opencount = suc sm.opencount } in
          let w1 = put_sm m (held_sm sm) w in
          let w2 = put_sm m (more (held_sm sm)) w1 in
          rw (e, change_sm-ok m more w1 (set_at_self w.managers m (some (held_sm sm))))
            (change_ctx-After (λ _. SoundAt b) ctx (λ s. record s { is_open = true })
              (λ _. unlock_sm m) w2
              λ s there.
                let z = record s { is_open = true } in
                rw
                  (change_sm-ok m (λ sm. record sm { mt = false }) (put_ctx ctx z w2)
                    (set_at_self w1.managers m (some (more (held_sm sm)))))
                  (Touches-Sound ctx (put_ctx-Touches ctx (changed_sm m more sm w) z there refl)
                    (changed-Sound m more w at refl i)))

  pub find_manger-After :
      (ctx : Ptr) (w : SerialWorld) → SoundAt b w → After (Found ctx w) (find_manger links ctx w)
  unfolding find_manger
  find_manger-After ctx w i =
      load_ctx-After (Found ctx w) ctx _ w
        λ s at. rw (find_serial-ok links w s.backend_data.device i.1) (s, at, refl, refl)

  -- A call that finds the manager of its port first.
  with_manger :
      {A : Type 0} (ctx : Ptr) (n : M SerialWorld A) (f : Ptr → M SerialWorld A)
      → Keeps (SoundAt b) n
      → ((m : Ptr) → Keeps (SoundAt b) (f m))
      → Keeps
          (SoundAt b)
          (λ w. and_then (find_manger links ctx w) λ o. elim o [ none ↦ n | some m ↦ f m ])
  with_manger ctx n f h k w i =
      and_then-After (Found ctx w) (λ _. SoundAt b) _ _ (find_manger-After ctx w i)
        λ o v (s, at, _, e).
          split_option (SoundAt b) o n f h (λ m _. k m) v (subst (SoundAt b) (sym e) i)

  module _ (backend : SerialBackend) (behaves : Behaves backend) where
    -- A call of the backend.
    touching :
        {A : Type 0} (p : Ptr) (m : M SerialWorld A)
        → ((w : SerialWorld) → After (λ _. Touches p w) (m w))
        → Keeps (SoundAt b) m
    touching p m h w i =
        Within-weaker Unit (λ _. Touches p w) (λ _. SoundAt b) (m w) (h w)
          λ _ _ t. Touches-Sound p t i

    pub open-Sound : (ctx : Ptr) → Keeps (SoundAt b) (serial_open links backend ctx)
    unfolding serial_open
    open-Sound ctx =
        with_manger ctx _ _ (λ _ i. i)
          λ m w i.
            load_sm-After (λ _. SoundAt b) m _ w
              λ sm at.
                branch (SoundAt b) (ltb 0 sm.opencount) _ _
                  (λ v j.
                    and_then-After (λ _. SoundAt b) (λ _. SoundAt b) _ _
                      (count_open-Sound ctx m v j) λ _ _ k. k)
                  (λ v j.
                    and_then-After (λ _. SoundAt b) (λ _. SoundAt b) _ _
                      (touching ctx (backend.open_port ctx) (behaves.opening ctx) v j)
                      λ opened u k.
                        branch (SoundAt b) opened _ _
                          (λ x l.
                            and_then-After (λ _. SoundAt b) (λ _. SoundAt b) _ _
                              (count_open-Sound ctx m x l) λ _ _ y. y)
                          (λ _ y. y) u k)
                  w i

    pub read-Sound :
        (ctx : Ptr) (len : ℕ) (t : ℤ) → Keeps (SoundAt b) (serial_read links backend ctx len t)
    unfolding serial_read
    read-Sound ctx len t =
        with_manger ctx _ _ (λ _ i. i)
          λ m. touching ctx (backend.read_port ctx len t) (behaves.reading ctx len t)

    pub write-Sound :
        (ctx : Ptr) (buf : List ℕ) → Keeps (SoundAt b) (serial_write links backend ctx buf)
    unfolding serial_write
    write-Sound ctx buf =
        with_manger ctx _ _ (λ _ i. i)
          λ m. touching ctx (backend.write_port ctx buf) (behaves.writing ctx buf)

    pub clean-Sound : (ctx : Ptr) → Keeps (SoundAt b) (serial_clean links backend ctx)
    unfolding serial_clean
    clean-Sound ctx =
        with_manger ctx _ _ (λ _ i. i) λ m. touching ctx (backend.clean ctx) (behaves.cleaning ctx)

    pub close-Sound : (ctx : Ptr) → Keeps (SoundAt b) (serial_close links backend ctx)
    unfolding serial_close
    close-Sound ctx =
        with_manger ctx _ _ (λ _ i. i)
          λ m w i.
            load_sm-After (λ _. SoundAt b) m _ w
              λ sm at.
                and_then-After (λ _. SoundAt b) (λ _. SoundAt b) _ _
                  (branch (SoundAt b) (ltb 0 sm.opencount) _ skip
                    (change_locked-Sound m _ (λ _. refl)) (λ _ j. j) w i)
                  λ _ v j.
                    load_sm-After (λ _. SoundAt b) m _ v
                      λ sm' at'.
                        branch (SoundAt b) (sm'.opencount == 0) _ _
                          (touching ctx (backend.close_port ctx) (behaves.closing ctx)) (λ _ k. k) v
                          j

-- `serial_set_debug`
pub debug-Sound :
    {b : Bool} (ctx : Ptr) (debug : Bool) → Keeps (SoundAt b) (serial_set_debug ctx debug)
unfolding serial_set_debug
debug-Sound {b} ctx debug w i =
    Within-weaker Unit (λ _. Touches ctx w) (λ _. SoundAt b) _
      (change_ctx-Touches w ctx (λ s. record s { debug = debug }) (λ s. refl) w
        (touched_itself ctx w))
      λ _ _ t. Touches-Sound ctx t i

-- ===== src/Serial/Sharing.antt =====
-- Ports that several users share: `serial_new`, `serial_open`, `serial_close` and `serial_destory` of
-- src/serial/serial_port.c, at a port that has a manager.
use libzio.Base.{
  ℕ, suc, ◌-◌, ◌≡◌, refl, Bool, true, false, none, some, arith, if◌then◌else◌, ltb, ◌==◌, ==-true,
  Bool-cases, inl, inr,
}
use libzio.Effects.{Outcome, ok, abort, fault, stuck, pure, M, and_then}
use libzio.Effects.Keeps.{Returns}
use libzio.Links.{Links, erase}
use libzio.Serial.Line.{change_ctx-ok, set_at_self, put_ctx}
use libzio.Serial.Port.{
  SerialBackend, find_manger, lock_sm, unlock_sm, change_locked, count_open, serial_open,
  serial_close, serial_destory, lock_all, unlock_all,
}
use libzio.Serial.Registry.{load_sm-ok}
use libzio.Serial.State.{Ptr, Serial, SerialManger, SerialWorld, change_sm, set_at}

abbrev pub put_sm : Ptr → SerialManger → SerialWorld → SerialWorld
put_sm m sm w = record w { managers = set_at w.managers m (some sm) }

pub change_sm-ok :
    (m : Ptr) (f : SerialManger → SerialManger) (w : SerialWorld) {sm : SerialManger}
    → w.managers m ≡ some sm
    → change_sm m f w ≡ ok (tt, put_sm m (f sm) w)
unfolding change_sm
change_sm-ok m f w e = rw (load_sm-ok m w e) refl

abbrev pub free_sm : Ptr → ℕ → ℕ → SerialManger
free_sm t refcount opencount = record {
  t = t;
  refcount = refcount;
  opencount = opencount;
  mt = false;
}

abbrev pub held_sm : SerialManger → SerialManger
held_sm sm = record sm { mt = true }

lock_sm-ok :
    (m : Ptr) (w : SerialWorld) (t : Ptr) (r o : ℕ)
    → w.managers m ≡ some (free_sm t r o)
    → lock_sm m w ≡ ok (tt, put_sm m (held_sm (free_sm t r o)) w)
unfolding lock_sm
lock_sm-ok m w t r o at = rw (load_sm-ok m w at) (change_sm-ok m held_sm w at)

-- The world when a manager has been changed with its mutex held.
abbrev pub changed_sm :
    Ptr → (SerialManger → SerialManger) → SerialManger → SerialWorld → SerialWorld
changed_sm m f sm w =
    put_sm m (record (f (held_sm sm)) { mt = false })
      (put_sm m (f (held_sm sm)) (put_sm m (held_sm sm) w))

pub change_locked-ok :
    (m : Ptr) (f : SerialManger → SerialManger) (w : SerialWorld) (t : Ptr) (r o : ℕ)
    → w.managers m ≡ some (free_sm t r o)
    → change_locked m f w ≡ ok (tt, changed_sm m f (free_sm t r o) w)
unfolding change_locked unlock_sm
change_locked-ok m f w t r o at =
    let sm = held_sm (free_sm t r o) in
    let w1 = put_sm m sm w in
    let w2 = put_sm m (f sm) w1 in
    rw (lock_sm-ok m w t r o at, change_sm-ok m f w1 (set_at_self w.managers m (some sm)))
      (change_sm-ok m (λ sm. record sm { mt = false }) w2 (set_at_self w1.managers m (some (f sm))))

module _ (links : Links) (backend : SerialBackend) (ctx m : Ptr) (w : SerialWorld) (r o : ℕ)
    {s : Serial} (found : find_manger links ctx w ≡ ok (some m, w))
    (at : w.managers m ≡ some (free_sm ctx r (suc o))) (port : w.ports ctx ≡ some s) where
  -- When a port is open already and its mutex is free, `serial_open` returns 0, counts once more
  -- at its manager and marks the port as open; the line is left alone, whatever the backend is.
  pub open-shared :
      Returns
        (λ done v.
          (done ≡ true)
          × (v.managers m ≡ some (free_sm ctx r (suc (suc o))))
          × (v.ports ctx ≡ some (record s { is_open = true }))
          × (v.line_events ≡ w.line_events))
        (serial_open links backend ctx w)
  unfolding serial_open count_open unlock_sm
  open-shared =
      let some_open : ltb 0 (suc o) ≡ true = ground arith in
      let w1 = put_sm m (held_sm (free_sm ctx r (suc o))) w in
      let w2 = put_sm m (held_sm (free_sm ctx r (suc (suc o)))) w1 in
      let w3 = put_ctx ctx (record s { is_open = true }) w2 in
      rw
        (
          found,
          load_sm-ok m w at,
          some_open,
          lock_sm-ok m w ctx r (suc o) at,
          change_sm-ok m (λ sm. record sm { opencount = suc sm.opencount }) w1
              (set_at_self w.managers m (some (held_sm (free_sm ctx r (suc o))))),
          change_ctx-ok ctx (λ s. record s { is_open = true }) w2 port,
          change_sm-ok m (λ sm. record sm { mt = false }) w3
              (set_at_self w1.managers m (some (held_sm (free_sm ctx r (suc (suc o)))))),
        )
        (
          refl,
          set_at_self w2.managers m (some (free_sm ctx r (suc (suc o)))),
          set_at_self w2.ports ctx (some (record s { is_open = true })),
          refl,
        )

pub and_then-modify :
    {S : Type 0} (o : Outcome (Unit {0} × S)) (f g : S → S)
    → and_then (and_then o λ _ x. ok (tt, f x)) (λ _ x. ok (tt, g x))
      ≡ and_then o λ _ x. ok (tt, g (f x))
and_then-modify (ok (a, s)) f g = refl
and_then-modify abort f g = refl
and_then-modify fault f g = refl
and_then-modify stuck f g = refl

pred : (n : ℕ) → suc n - 1 ≡ n
pred n = omega arith

apply-if :
    {A S : Type 0} (b : Bool) (f g : M S A) (w : S)
    → (if b then f else g) w ≡ (if b then f w else g w)
apply-if true f g w = refl
apply-if false f g w = refl

abbrev pub one_less : SerialManger → SerialManger
one_less sm = record sm { opencount = sm.opencount - 1 }

abbrev pub one_left : SerialManger → SerialManger
one_left sm = record sm { refcount = sm.refcount - 1 }

module _ (links : Links) (backend : SerialBackend) (ctx m : Ptr) (w : SerialWorld) (r o : ℕ) where
  -- `serial_close` of an open port, when the mutex of its manager is free, counts once less.
  -- While the port is open for others it returns 0 and does nothing else; the last `serial_close`
  -- closes the port in the backend, and gives its result.
  pub close-shared :
      find_manger links ctx w ≡ ok (some m, w)
      → w.managers m ≡ some (free_sm ctx r (suc o))
      → let v = changed_sm m one_less (free_sm ctx r (suc o)) w in
        (v.managers m ≡ some (free_sm ctx r o))
        × (serial_close links backend ctx w
            ≡ (if o == 0 then backend.close_port ctx v else ok (true, v)))
  unfolding serial_close
  close-shared found at =
      let v = changed_sm m one_less (free_sm ctx r (suc o)) w in
      let some_open : ltb 0 (suc o) ≡ true = ground arith in
      let after : v.managers m ≡ some (free_sm ctx r o) = rw (==-true m m refl, pred o) refl in
      (
        after,
        rw
            (
              found,
              load_sm-ok m w at,
              some_open,
              change_locked-ok m one_less w ctx r (suc o) at,
              load_sm-ok m v after,
            )
            (apply-if (o == 0) (backend.close_port ctx) (pure true) v),
      )

  -- `serial_destory` of a port, when both mutexes are free, gives up one reference of its
  -- manager. While there are other references it does nothing else, and `g_mangers` is free
  -- again; with the last one the manager is taken off the list, the backend destroys the port,
  -- and if that returns the manager is freed and so is `g_mangers`.
  pub destory-shared :
      w.g_mangers ≡ false
      → (let u = record w { g_mangers = true } in find_manger links ctx u ≡ ok (some m, u))
      → w.managers m ≡ some (free_sm ctx (suc r) o)
      → let v = changed_sm m one_left (free_sm ctx (suc r) o) (record w { g_mangers = true }) in
        (v.managers m ≡ some (free_sm ctx r o))
        × (serial_destory links backend ctx w ≡ (
            if r == 0
            then and_then
                (backend.destory ctx (record v { serial_mangers = erase m w.serial_mangers }))
                (λ _ x.
                  ok (tt, record x { managers = set_at x.managers m none; g_mangers = false }))
            else ok (tt, record v { g_mangers = false })))
  unfolding serial_destory lock_all unlock_all
  destory-shared idle found at =
      let v = changed_sm m one_left (free_sm ctx (suc r) o) (record w { g_mangers = true }) in
      let some_ref : ltb 0 (suc r) ≡ true = ground arith in
      let after : v.managers m ≡ some (free_sm ctx r o) = rw (==-true m m refl, pred r) refl in
      (
        after,
        rw
            (
              idle,
              found,
              load_sm-ok m (record w { g_mangers = true }) at,
              some_ref,
              change_locked-ok m one_left (record w { g_mangers = true }) ctx (suc r) o at,
              load_sm-ok m v after,
            )
            (elim (Bool-cases (r == 0)) [
              | inl e ↦
                  rw (e, links.del_lem m w.serial_mangers)
                    (and_then-modify _ (λ x. record x { managers = set_at x.managers m none })
                      (λ x. record x { g_mangers = false }))
              | inr e ↦ rw e refl
            ]),
      )

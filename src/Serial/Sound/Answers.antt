-- ===== src/Serial/Sound/Answers.antt =====
-- What `serial_new` of src/serial/serial_port.c answers when the registry is in order.
use libzio.Base.{
  ℕ, suc, ◌≡◌, refl, ap, ◌∙◌, Bool, true, false, not, ◌&&◌, ◌||◌, none, some, List, [], ◌∷◌, ◌==◌,
  if◌then◌else◌, Bool-cases, inl, inr, ==-true,
}
use libzio.Effects.{ok}
use libzio.Effects.Keeps.{Returns}
use libzio.Links.{Links}
use libzio.Serial.Line.{load_ctx-ok, change_ctx-ok, set_at_self, put_ctx}
use libzio.Serial.Port.{
  SerialBackend, NewAnswer, lock_all, unlock_all, add_serial, reuse, create, serial_new, diverse,
  share,
}
use libzio.Serial.Registry.{registered, named, load_sm-ok}
use libzio.Serial.Sharing.{changed_sm, free_sm, change_locked-ok}
use libzio.Serial.Sound.Beside.{flag-Entries, not_listed}
use libzio.Serial.Sound.Entries.{Sound, find_serial-ok}
use libzio.Serial.Sound.Making.{half_made, made_port, named_parity}
use libzio.Serial.State.{Ptr, SerialRtu, Serial, SerialWorld}

registered-flag :
    (b : Bool) (w : SerialWorld) (d : ℕ) (l : List Ptr)
    → registered (record w { g_mangers = b }) d l ≡ registered w d l
registered-flag b w d [] = refl
registered-flag b w d (m ∷ l) =
    ap (λ r. if named w d m then some m else r) (registered-flag b w d l)

-- A port can be had by another user: both want to share it, with the same baud rate, parity, data
-- bits and stop bits.
abbrev pub admits : Serial → SerialRtu → ℕ → Bool
admits s rtu share_mode =
    not (share_mode == 0)
    && (not (s.share_mode == 0)
        && ((s.backend_data.baud == rtu.baud)
            && ((s.backend_data.parity == rtu.parity)
                && ((s.backend_data.data_bit == rtu.data_bit)
                    && (s.backend_data.stop_bit == rtu.stop_bit)))))

both_all :
    (a b c d e f : Bool)
    → (not a && (not b && (c && (d && (e && f)))))
      ≡ (not (a || b) && not (not c || (not d || (not e || not f))))
both_all true b c d e f = refl
both_all false true c d e f = refl
both_all false false false d e f = refl
both_all false false true false e f = refl
both_all false false true true false f = refl
both_all false false true true true false = refl
both_all false false true true true true = refl

-- The test of the code.
admits_lem :
    (s : Serial) (rtu : SerialRtu) (share_mode : ℕ)
    → admits s rtu share_mode
      ≡ (not ((share_mode == 0) || (s.share_mode == 0)) && not (diverse s.backend_data rtu))
admits_lem s rtu share_mode =
    both_all (share_mode == 0) (s.share_mode == 0) (s.backend_data.baud == rtu.baud)
      (s.backend_data.parity == rtu.parity) (s.backend_data.data_bit == rtu.data_bit)
      (s.backend_data.stop_bit == rtu.stop_bit)

module _ (links : Links) (backend : SerialBackend) (rtu : SerialRtu) (share_mode : ℕ)
    (answer : NewAnswer) (w : SerialWorld) (sound : Sound w) where
  -- If the registry is in order and there is a manager for the device, `serial_new` returns the
  -- port of that manager, with one reference more, when both users share it and ask for the same
  -- baud rate, parity, data bits and stop bits; otherwise it returns NULL and changes nothing. It frees the mutexes that it takes,
  -- and neither allocates nor calls the backend.
  pub new-known :
      (m t : Ptr) (r o : ℕ) {s : Serial}
      → registered w rtu.device w.serial_mangers ≡ some m
      → w.managers m ≡ some (free_sm t r o)
      → w.ports t ≡ some s
      → let v = changed_sm m share (free_sm t r o) (record w { g_mangers = true }) in
        (v.managers m ≡ some (free_sm t (suc r) o))
        × (serial_new links backend rtu share_mode answer w
            ≡ ok (
                if admits s rtu share_mode
                then (some t, record v { g_mangers = false })
                else (none, record w { g_mangers = false })))
  unfolding serial_new lock_all unlock_all reuse
  new-known m t r o {s} found at port =
      let u : SerialWorld = record w { g_mangers = true } in
      (
        rw (==-true m m refl) refl,
        rw
            (
              sound.0,
              find_serial-ok links u rtu.device (flag-Entries true w w.serial_mangers sound.1),
              registered-flag true w rtu.device w.serial_mangers ∙ found,
              load_sm-ok m u at,
              load_ctx-ok t u port,
            )
            (rw (admits_lem s rtu share_mode)
              (elim (Bool-cases ((share_mode == 0) || (s.share_mode == 0))) [
                | inl e ↦ rw e refl
                | inr e ↦ rw e (elim (Bool-cases (diverse s.backend_data rtu)) [
                  | inl f ↦ rw f refl
                  | inr f ↦ rw (f, change_locked-ok m share u t r o at) refl
                ])
              ])),
      )

  -- If the registry is in order and there is no manager for the device, the parity is one of 'N',
  -- 'E' and 'O', and `malloc` gives its two blocks, that of the manager one that is not in use, then
  -- `serial_new` returns a new port with the parameters that were asked for, closed, with no error
  -- and no descriptor, under a new manager at the front of the list with one reference and no open;
  -- the mutexes are free again.
  pub new-created :
      (ctx m : Ptr)
      → registered w rtu.device w.serial_mangers ≡ none
      → named_parity rtu.parity ≡ true
      → answer.ctx ≡ some ctx
      → answer.sm ≡ some m
      → w.managers m ≡ none
      → Returns
          (λ made v.
            (made ≡ some ctx)
            × (v.ports ctx
                ≡ some (record {
                  debug = false;
                  is_open = false;
                  err_code = 0;
                  share_mode = share_mode;
                  backend_data = record {
                    device = rtu.device;
                    baud = rtu.baud;
                    data_bit = rtu.data_bit;
                    stop_bit = rtu.stop_bit;
                    parity = rtu.parity;
                    old_tios = answer.junk.backend_data.old_tios;
                    s = none;
                  };
                }))
            × (v.managers m ≡ some (free_sm ctx 1 0))
            × (v.serial_mangers ≡ m ∷ w.serial_mangers)
            × (v.g_mangers ≡ false)
            × (v.line_events ≡ w.line_events))
          (serial_new links backend rtu share_mode answer w)
  unfolding serial_new lock_all unlock_all create add_serial
  new-created ctx m missing parity got_ctx got_sm new =
      let u : SerialWorld = record w { g_mangers = true } in
      let u0 = put_ctx ctx answer.junk u in
      let u1 = put_ctx ctx (half_made rtu answer.junk) u0 in
      rw
        (
          sound.0,
          find_serial-ok links u rtu.device (flag-Entries true w w.serial_mangers sound.1),
          registered-flag true w rtu.device w.serial_mangers ∙ missing,
          got_ctx,
          change_ctx-ok ctx (half_made rtu) u0 (set_at_self w.ports ctx (some answer.junk)),
          parity,
          change_ctx-ok ctx (made_port share_mode rtu) u1
              (set_at_self u0.ports ctx (some (half_made rtu answer.junk))),
          got_sm,
        )
        (
          refl,
          set_at_self u1.ports ctx (some (made_port share_mode rtu (half_made rtu answer.junk))),
          set_at_self w.managers m (some (free_sm ctx 1 0)),
          links.add_lem m w.serial_mangers (not_listed w m w.serial_mangers sound.1 new),
          refl,
          refl,
        )

-- ===== src/Serial/Line.antt =====
-- What src/serial/serial_unix.c does to a line when it opens and closes it.
use libzio.Base.{
  ℕ, ◌≤◌, ◌≡◌, ◌⊎◌, inl, inr, Bool, ◌==◌, ◌||◌, refl, ap, sym, ◌∙◌, true, false, Option, none, some,
  List, [], ◌∷◌, ==-true, arith,
}
use libzio.Effects.{ok, and_then}
use libzio.Effects.Keeps.{Returns}
use libzio.Serial.State.{
  Ptr, Termios, SerialRtu, Serial, SerialWorld, sys_close, set_attributes, load_ctx, change_ctx,
  set_at, trace,
}
use libzio.Serial.Unix.{
  settings, member, speeds, speed_of, csize_of, OpenAnswer, CloseAnswer, unix_serial_open,
  unix_serial_close, set_fd,
}

pub load_ctx-ok :
    (p : Ptr) (w : SerialWorld) {s : Serial} → w.ports p ≡ some s → load_ctx p w ≡ ok (s, w)
unfolding load_ctx
load_ctx-ok p w e = rw e refl

-- A world where the port at `p` is `s`.
abbrev pub put_ctx : Ptr → Serial → SerialWorld → SerialWorld
put_ctx p s w = record w { ports = set_at w.ports p (some s) }

pub set_at_self : {A : Type 0} (f : ℕ → A) (p : ℕ) (v : A) → set_at f p v p ≡ v
set_at_self f p v = rw (==-true p p refl)

pub change_ctx-ok :
    (p : Ptr) (f : Serial → Serial) (w : SerialWorld) {s : Serial}
    → w.ports p ≡ some s
    → change_ctx p f w ≡ ok (tt, put_ctx p (f s) w)
unfolding change_ctx
change_ctx-ok p f w e = rw (load_ctx-ok p w e) refl

-- The port when its line has been set up.
abbrev pub opened : ℕ → Termios → Serial → Serial
opened fd old s = record s {
  is_open = true;
  backend_data = record s.backend_data { s = some fd; old_tios = old };
}

-- The port when the descriptor is there, and its attributes are saved.
abbrev half_open : ℕ → Termios → Serial → Serial
half_open fd old s = record s {
  is_open = false;
  backend_data = record s.backend_data { s = some fd; old_tios = old };
}

abbrev set_up : Ptr → ℕ → Termios → Serial → SerialWorld → SerialWorld
set_up p fd old s w =
    trace (set_attributes fd (settings s.backend_data)) (put_ctx p (half_open fd old s) w)

-- The baud rates that the backend knows.
abbrev pub standard : List ℕ
standard = 110 ∷ 300 ∷ 600 ∷ 1200 ∷ 2400 ∷ 4800 ∷ 9600 ∷ 19200 ∷ 38400 ∷ 57600 ∷ 115200 ∷ []

abbrev pub Among : ℕ → List ℕ → Type 0
Among x [] = ⊥
Among x (y ∷ l) = (x ≡ y) ⊎ Among x l

-- The line has the speed, data bits, stop bits and parity of `r`, so far as `r` names one that there
-- is, and passes bytes on as they come.
pub record AsAsked (r : SerialRtu) (t : Termios) : Type 0 where
  pub speed : Among r.baud standard → (t.ispeed ≡ r.baud) × (t.ospeed ≡ r.baud)
  pub data_bits : 5 ≤ r.data_bit → r.data_bit ≤ 8 → t.csize ≡ r.data_bit
  pub one_stop_bit : r.stop_bit ≡ 1 → t.cstopb ≡ false
  pub two_stop_bits : r.stop_bit ≡ 2 → t.cstopb ≡ true
  pub no_parity : r.parity ≡ 78 → t.parenb ≡ false
  pub even_parity : r.parity ≡ 69 → (t.parenb ≡ true) × (t.parodd ≡ false)
  pub odd_parity : r.parity ≡ 79 → (t.parenb ≡ true) × (t.parodd ≡ true)
  pub raw : (t.icanon ≡ false) × (t.echo ≡ false) × (t.isig ≡ false) × (t.opost ≡ false)
  pub at_once : (t.vmin ≡ 0) × (t.vtime ≡ 0)

Among-member : (x : ℕ) (l : List ℕ) → Among x l → member x l ≡ true
Among-member x [] m = absurd m
Among-member x (y ∷ l) (inl e) = rw (e, ==-true y y refl) refl
Among-member x (y ∷ l) (inr m) = rw (Among-member x l m) (either_true (x == y))
  where
    either_true : (b : Bool) → (b || true) ≡ true
    either_true true = refl
    either_true false = refl

settings-AsAsked : (r : SerialRtu) → AsAsked r (settings r)
unfolding settings speed_of csize_of
settings-AsAsked r = record {
  speed = λ m.
      let e : member r.baud speeds ≡ true = Among-member r.baud standard m in
      (rw e refl, rw e refl);
  data_bits = λ a b. ground arith;
  one_stop_bit = λ e. ground arith;
  two_stop_bits = λ e. ground arith;
  no_parity = λ e. ground arith;
  even_parity = λ e. (ground arith, ground arith);
  odd_parity = λ e. (ground arith, ground arith);
  raw = (refl, refl, refl, refl);
  at_once = (refl, refl);
}

module _ (p : Ptr) (w : SerialWorld) (s : Serial)
    (at : w.ports p ≡ some (record s { is_open = false })) (answer : OpenAnswer) {fd : ℕ}
    (made : answer.new_fd ≡ some fd) (speed : answer.speed_ok ≡ true)
    (set : answer.attributes_ok ≡ true) where
  open-ok :
      unix_serial_open p answer w
      ≡ ok (true, put_ctx p (opened fd answer.old s) (set_up p fd answer.old s w))
  unfolding unix_serial_open
  open-ok = rw (load_ctx-ok p w at) (
      rw
        (
          made,
          change_ctx-ok p
              (λ z. record z {
                backend_data = record z.backend_data { s = some fd; old_tios = answer.old };
              })
              w at,
          speed,
          set,
          change_ctx-ok p (λ s. record s { is_open = true }) (set_up p fd answer.old s w)
              (set_at_self w.ports p (some (half_open fd answer.old s))),
        )
        refl)

  -- A closed port without a descriptor that `unix_serial_open` opens on the descriptor `fd` and
  -- `unix_serial_close` closes, when every setting is accepted, is as it was but for the saved
  -- attributes; the line is set to what the parameters of the port ask for, and then back to what
  -- it was, before `fd` is closed.
  pub close-open :
      (again : CloseAnswer)
      → again.attributes_ok ≡ true
      → s.backend_data.s ≡ none
      → Returns
          (λ done v.
            (done ≡ true)
            × (v.ports p
                ≡ some (record s {
                  is_open = false;
                  backend_data = record s.backend_data { old_tios = answer.old };
                }))
            × ((t : Termios) × AsAsked s.backend_data t
                × (v.line_events
                    ≡ sys_close fd
                      ∷ set_attributes fd answer.old
                      ∷ set_attributes fd t
                      ∷ w.line_events)))
          (and_then (unix_serial_open p answer w) λ _. unix_serial_close p again)
  unfolding unix_serial_close
  close-open again ok_ unset =
      let v = put_ctx p (opened fd answer.old s) (set_up p fd answer.old s w) in
      let open_at : v.ports p ≡ some (opened fd answer.old s) =
        set_at_self (set_up p fd answer.old s w).ports p (some (opened fd answer.old s)) in
      let last : SerialWorld = trace (sys_close fd) (trace (set_attributes fd answer.old) v) in
      let shut : Option ℕ → Serial = λ o. record s {
        is_open = false;
        backend_data = record s.backend_data { s = o; old_tios = answer.old };
      } in
      rw
        (
          open-ok,
          load_ctx-ok p v open_at,
          ok_,
          change_ctx-ok p (λ s. record (set_fd none s) { is_open = false }) last open_at,
        )
        (
          refl,
          set_at_self last.ports p (some (shut none)) ∙ ap (λ o. some (shut o)) (sym unset),
          (settings s.backend_data, settings-AsAsked s.backend_data, refl),
        )

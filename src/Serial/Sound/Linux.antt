-- ===== src/Serial/Sound/Linux.antt =====
-- The backend of src/serial/serial_unix.c has what the manager of src/serial/serial_port.c relies on.
use libzio.Base.{
  ℕ, refl, Bool, true, false, not, Option, none, some, List, [], ◌==◌, ◌||◌, ltb, if◌then◌else◌,
  ==-true, length, take,
}
use libzio.Base.Int.{ℤ, pos, negsuc}
use libzio.Effects.{stuck, M, pure, defined, ◌>>◌}
use libzio.Effects.Keeps.{After, Keeps, branch, split_option, and_then-After}
use libzio.Serial.Port.{SerialBackend}
use libzio.Serial.State.{Ptr, SerialWorld, change_ctx, sent, flush, sys_close, set_attributes}
use libzio.Serial.Unix.{
  OpenAnswer, CloseAnswer, ReadRound, ReadEnd, left, returned, unix_serial_open, unix_serial_read,
  unix_serial_write, unix_serial_clean_buffer, unix_serial_close, unix_serial_destory, give_up,
  set_fd, set_errno, selects, read_rounds, settings,
}
use libzio.Serial.Sound.Backend.{
  Touches, Frees, Behaves, touched_itself, load_ctx-After, change_ctx-Touches, trace-Touches,
}

module _ (w : SerialWorld) where
  give_up-Touches : (p : Ptr) (fd errno : ℕ) → Keeps (Touches p w) (give_up p fd errno)
  unfolding give_up
  give_up-Touches p fd errno v t =
      and_then-After (λ _. Touches p w) (λ _. Touches p w) _ _
        (change_ctx-Touches w p (set_errno errno) (λ s. refl) v t)
        λ _ v' t'.
          and_then-After (λ _. Touches p w) (λ _. Touches p w) _ _
            (change_ctx-Touches w p (set_fd none) (λ s. refl) _
              (trace-Touches w p (sys_close fd) v' t'))
            λ _ _ u. u

  open-Touches : (p : Ptr) (answer : OpenAnswer) → Keeps (Touches p w) (unix_serial_open p answer)
  unfolding unix_serial_open
  open-Touches p answer v t =
      load_ctx-After (λ _. Touches p w) p _ v
        λ s e.
          branch (Touches p w) s.is_open (pure true) _ (λ _ u. u)
            (split_option (Touches p w) answer.new_fd _ _
              (λ v1 t1.
                and_then-After (λ _. Touches p w) (λ _. Touches p w) _ _
                  (change_ctx-Touches w p (set_fd none) (λ s. refl) v1 t1)
                  λ _ v2 t2.
                    and_then-After (λ _. Touches p w) (λ _. Touches p w) _ _
                      (change_ctx-Touches w p (set_errno answer.errno) (λ s. refl) v2 t2)
                      λ _ _ u. u)
              (λ fd _ v1 t1.
                and_then-After (λ _. Touches p w) (λ _. Touches p w) _ _
                  (change_ctx-Touches w p _ (λ s. refl) v1 t1)
                  λ _.
                    branch (Touches p w) (not answer.speed_ok) _ _
                      (give_up-Touches p fd answer.errno)
                      (branch (Touches p w) (not answer.attributes_ok) _ _
                        (give_up-Touches p fd answer.errno)
                        (λ v2 t2.
                          and_then-After (λ _. Touches p w) (λ _. Touches p w) _ _
                            (change_ctx-Touches w p _ (λ s. refl) _
                              (trace-Touches w p (set_attributes fd (settings s.backend_data)) v2
                                t2))
                            λ _ _ u. u))))
            v t

  read-Touches :
      (p : Ptr) (len : ℕ) (mtimeout : ℤ) (rounds : ℕ → ReadRound) (errno : ℕ)
      → Keeps (Touches p w) (unix_serial_read p len mtimeout rounds errno)
  unfolding unix_serial_read
  read-Touches p len mtimeout rounds errno v t =
      load_ctx-After (λ _. Touches p w) p _ v
        λ s e.
          branch (Touches p w) (not s.is_open) _ _ (λ _ u. u)
            (split_option (Touches p w) s.backend_data.s _ _ (λ _ u. u)
              (λ fd _ v1 t1.
                and_then-After (λ _. Touches p w) (λ _. Touches p w) _ _
                  (defined-Touches (not (selects mtimeout len) || ltb fd 1024) v1 t1)
                  λ _ v2 t2. ended (read_rounds rounds mtimeout len 0 len []) v2 t2))
            v t
    where
      defined-Touches : (b : Bool) → Keeps (Touches p w) (defined b)
      defined-Touches true u x = x
      defined-Touches false u x = tt

      ended :
          (o : Option ReadEnd)
          → Keeps (Touches p w) (elim o as (λ _. M SerialWorld (ℤ × List ℕ)) [
            | none ↦ (λ w. stuck)
            | some (returned buf) ↦ pure (pos (length buf), buf)
            | some (left buf) ↦
                if length buf == 0
                then (do change_ctx p (set_errno errno); pure (negsuc 0, []))
                else pure (pos (length buf), buf)
          ])
      ended none u x = tt
      ended (some (returned buf)) u x = x
      ended (some (left buf)) u x =
          branch (Touches p w) (length buf == 0) _ _
            (λ v1 t1.
              and_then-After (λ _. Touches p w) (λ _. Touches p w) _ _
                (change_ctx-Touches w p (set_errno errno) (λ s. refl) v1 t1) λ _ _ y. y)
            (λ _ y. y) u x

  write-Touches :
      (p : Ptr) (buf : List ℕ) (answer : Option ℕ) (errno : ℕ)
      → Keeps (Touches p w) (unix_serial_write p buf answer errno)
  unfolding unix_serial_write
  write-Touches p buf answer errno v t =
      load_ctx-After (λ _. Touches p w) p _ v
        λ s e.
          branch (Touches p w) (not s.is_open) _ _ (λ _ u. u)
            (split_option (Touches p w) s.backend_data.s _ _ failed (λ fd _.
              split_option (Touches p w) answer _ _ failed
                (λ n _ v1 t1. trace-Touches w p (sent fd (take n buf)) v1 t1)))
            v t
    where
      failed : Keeps (Touches p w) (do change_ctx p (set_errno errno); pure {A = Option ℕ} none)
      failed v1 t1 =
          and_then-After (λ _. Touches p w) (λ _. Touches p w) _ _
            (change_ctx-Touches w p (set_errno errno) (λ s. refl) v1 t1) λ _ _ y. y

  clean-Touches : (p : Ptr) → Keeps (Touches p w) (unix_serial_clean_buffer p)
  unfolding unix_serial_clean_buffer
  clean-Touches p v t =
      load_ctx-After (λ _. Touches p w) p _ v λ s e. trace-Touches w p (flush s.backend_data.s) v t

  close-Touches :
      (p : Ptr) (answer : CloseAnswer) → Keeps (Touches p w) (unix_serial_close p answer)
  unfolding unix_serial_close
  close-Touches p answer v t =
      load_ctx-After (λ _. Touches p w) p _ v
        λ s e.
          split_option (Touches p w) s.backend_data.s _ _ (λ _ u. u)
            (λ fd _.
              branch (Touches p w) (not answer.attributes_ok) _ _
                (λ v1 t1.
                  and_then-After (λ _. Touches p w) (λ _. Touches p w) _ _
                    (change_ctx-Touches w p (set_errno answer.errno) (λ s. refl) v1 t1) λ _ _ y. y)
                (λ v1 t1.
                  and_then-After (λ _. Touches p w) (λ _. Touches p w) _ _
                    (change_ctx-Touches w p _ (λ s. refl) _
                      (trace-Touches w p (sys_close fd) _
                        (trace-Touches w p (set_attributes fd s.backend_data.old_tios) v1 t1)))
                    λ _ _ y. y))
            v t

destory-Frees :
    (p : Ptr) (answer : CloseAnswer) (w : SerialWorld)
    → After (λ _. Frees p w) (unix_serial_destory p answer w)
unfolding unix_serial_destory
destory-Frees p answer w =
    and_then-After (λ _. Touches p w) (λ _. Frees p w) _ _
      (close-Touches w p answer w (touched_itself p w))
      λ _ v t. record {
        managers = t.managers;
        mangers = t.mangers;
        locked = t.locked;
        gone = rw (==-true p p refl) refl;
        others = λ q other. rw other (t.others q other);
      }

-- What the system answers to the backend for Unix, as a function of the port.
pub record UnixAnswers : Type 0 where
  pub to_open : Ptr → OpenAnswer
  pub to_read : Ptr → ℕ → ReadRound
  pub to_write : Ptr → Option ℕ
  pub to_close : Ptr → CloseAnswer
  pub errno : ℕ

-- `_linux_serial_backend`
unfoldable pub linux_serial_backend : UnixAnswers → SerialBackend
linux_serial_backend a = record {
  open_port = λ p. unix_serial_open p (a.to_open p);
  read_port = λ p len t. unix_serial_read p len t (a.to_read p) a.errno;
  write_port = λ p buf. unix_serial_write p buf (a.to_write p) a.errno;
  clean = unix_serial_clean_buffer;
  close_port = λ p. unix_serial_close p (a.to_close p);
  destory = λ p. unix_serial_destory p (a.to_close p);
}

-- The functions of src/serial/serial_unix.c, whatever the system answers, are a backend that the
-- manager can rely on: if they return, they have changed nothing in the registry and of the
-- ports but the port that they were called with, not its device, and they free that port only in
-- `unix_serial_destory`.
pub linux_serial_backend-Behaves : (a : UnixAnswers) → Behaves (linux_serial_backend a)
unfolding linux_serial_backend
linux_serial_backend-Behaves a = record {
  opening = λ p w. open-Touches w p (a.to_open p) w (touched_itself p w);
  reading = λ p len t w. read-Touches w p len t (a.to_read p) a.errno w (touched_itself p w);
  writing = λ p buf w. write-Touches w p buf (a.to_write p) a.errno w (touched_itself p w);
  cleaning = λ p w. clean-Touches w p w (touched_itself p w);
  closing = λ p w. close-Touches w p (a.to_close p) w (touched_itself p w);
  destroying = λ p w. destory-Frees p (a.to_close p) w;
}

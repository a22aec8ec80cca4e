-- ===== src/Serial/Sound/Scripts.antt =====
-- Scripts of calls of src/serial/serial_port.c over the backend for Unix, from the start of the
-- program on.
use libzio.Base.{ℕ, refl, Bool, false, none, List, [], ◌∷◌}
use libzio.Base.Int.{ℤ}
use libzio.Effects.{M, ◌>>◌, ignore, skip}
use libzio.Effects.Keeps.{After, Keeps, and_then-After}
use libzio.Links.{Links}
use libzio.Serial.Port.{
  NewAnswer, serial_new, serial_open, serial_close, serial_read, serial_write, serial_clean,
  serial_destory, serial_set_debug,
}
use libzio.Serial.Sound.Linux.{UnixAnswers, linux_serial_backend, linux_serial_backend-Behaves}
use libzio.Serial.Sound.Beside.{Fresh}
use libzio.Serial.Sound.Entries.{Sound}
use libzio.Serial.Sound.Freeing.{destory-Sound}
use libzio.Serial.Sound.Making.{new-Sound}
use libzio.Serial.Sound.Using.{
  open-Sound, close-Sound, read-Sound, write-Sound, clean-Sound, debug-Sound,
}
use libzio.Serial.State.{Ptr, SerialRtu, SerialWorld}

-- A call. The locks of `serial_lock` are left out: they are held between calls.
pub data SerialCall : Type 0 where
  to_new : SerialRtu → (share_mode : ℕ) → SerialCall
  to_open : Ptr → SerialCall
  to_read : Ptr → (len : ℕ) → (mtimeout : ℤ) → SerialCall
  to_write : Ptr → List ℕ → SerialCall
  to_clean : Ptr → SerialCall
  to_close : Ptr → SerialCall
  to_destory : Ptr → SerialCall
  to_set_debug : Ptr → Bool → SerialCall

-- The world in which a program starts: no port, no manager.
abbrev pub serial_start : SerialWorld
serial_start = record {
  ports = λ _. none;
  managers = λ _. none;
  serial_mangers = [];
  g_mangers = false;
  line_events = [];
}

module _ (links : Links) (malloc : SerialWorld → NewAnswer) where
  serial_perform : UnixAnswers → SerialCall → M SerialWorld (Unit {0})
  serial_perform a (to_new rtu share_mode) =
      λ w. ignore (serial_new links (linux_serial_backend a) rtu share_mode (malloc w)) w
  serial_perform a (to_open p) = ignore (serial_open links (linux_serial_backend a) p)
  serial_perform a (to_read p len t) = ignore (serial_read links (linux_serial_backend a) p len t)
  serial_perform a (to_write p buf) = ignore (serial_write links (linux_serial_backend a) p buf)
  serial_perform a (to_clean p) = ignore (serial_clean links (linux_serial_backend a) p)
  serial_perform a (to_close p) = ignore (serial_close links (linux_serial_backend a) p)
  serial_perform a (to_destory p) = serial_destory links (linux_serial_backend a) p
  serial_perform a (to_set_debug p debug) = serial_set_debug p debug

  -- Calls in a row, each with what the system answers to it.
  unfoldable pub serial_script : List (UnixAnswers × SerialCall) → M SerialWorld (Unit {0})
  unfolding serial_perform
  serial_script [] = skip
  serial_script ((a, c) ∷ cs) = do serial_perform a c; serial_script cs

serial_ignored : {A : Type 0} (m : M SerialWorld A) → Keeps Sound m → Keeps Sound (ignore m)
serial_ignored m h w i = and_then-After (λ _. Sound) (λ _. Sound) (m w) _ (h w i) λ _ _ j. j

module _ (links : Links) (malloc : SerialWorld → NewAnswer)
    (allocates : (w : SerialWorld) → Fresh (malloc w) w) where
  serial_perform-Sound :
      (a : UnixAnswers) (c : SerialCall) → Keeps Sound (serial_perform links malloc a c)
  unfolding serial_perform
  serial_perform-Sound a (to_new rtu share_mode) = λ w i.
      and_then-After (λ _. Sound) (λ _. Sound) _ _
        (new-Sound links (linux_serial_backend a) (linux_serial_backend-Behaves a) rtu share_mode
          (malloc w) w (allocates w) i)
        λ _ _ j. j
  serial_perform-Sound a (to_open p) =
      serial_ignored _
        (open-Sound links (linux_serial_backend a) (linux_serial_backend-Behaves a) p)
  serial_perform-Sound a (to_read p len t) =
      serial_ignored _
        (read-Sound links (linux_serial_backend a) (linux_serial_backend-Behaves a) p len t)
  serial_perform-Sound a (to_write p buf) =
      serial_ignored _
        (write-Sound links (linux_serial_backend a) (linux_serial_backend-Behaves a) p buf)
  serial_perform-Sound a (to_clean p) =
      serial_ignored _
        (clean-Sound links (linux_serial_backend a) (linux_serial_backend-Behaves a) p)
  serial_perform-Sound a (to_close p) =
      serial_ignored _
        (close-Sound links (linux_serial_backend a) (linux_serial_backend-Behaves a) p)
  serial_perform-Sound a (to_destory p) =
      destory-Sound links (linux_serial_backend a) (linux_serial_backend-Behaves a) p
  serial_perform-Sound a (to_set_debug p debug) = debug-Sound p debug

  serial_script-Keeps :
      (cs : List (UnixAnswers × SerialCall)) → Keeps Sound (serial_script links malloc cs)
  unfolding serial_script
  serial_script-Keeps [] w i = i
  serial_script-Keeps ((a, c) ∷ cs) w i =
      and_then-After (λ _. Sound) (λ _. Sound) _ _ (serial_perform-Sound a c w i)
        λ _ v j. serial_script-Keeps cs v j

  -- Whatever calls a program makes of the serial ports on Unix, other than `serial_lock` and
  -- `serial_unlock`, from its start on and whatever the system answers, as long as `malloc` gives
  -- blocks that are not in use: if the calls return,
  -- then `g_mangers` is free, and on the list of the managers each is linked once, is allocated
  -- with its port, has its mutex free, and is the only one for its device.
  pub serial_script-Sound :
      (cs : List (UnixAnswers × SerialCall))
      → After (λ _. Sound) (serial_script links malloc cs serial_start)
  serial_script-Sound cs = serial_script-Keeps cs serial_start (refl, tt)

-- ===== src/Serial/Win/Shapes.antt =====
-- What every function of src/serial/serial_win.c keeps of the port and its handles.
use libzio.Base.{
  ℕ, take, ◌≡◌, refl, Bool, true, false, Option, none, some, List, [], ◌∷◌, ==-true, if◌then◌else◌,
}
use libzio.Base.Int.{ℤ}
use libzio.Effects.{M, ignore, pure, modify, skip, ◌>>◌}
use libzio.Effects.Keeps.{bind, branch, split_option, After, Keeps}
use libzio.Serial.Unix.{not_negative}
use libzio.Serial.Win.State.{
  Dcb, WinSerial, WinWorld, WinEvent, open_handles, closed_handle, created, set_state, set_timeouts,
  purged, wrote, received, log, load_port, change_port,
}
use libzio.Serial.Win.Calls.{
  configure, timeouts_of, WinCloseAnswer, WinOpenAnswer, WinAnswer, win32_serial_close,
  win32_serial_open, win32_serial_read, win32_serial_write, win32_serial_clean_buffer,
  win32_serial_set_timeout, win32_serial_destory, set_error, give_back, set_up_port,
}
use libzio.Serial.Win.Outcomes.{shut, opened_on, at, CleansUp}

-- The worlds that are reached: the port is freed, closed, or open on the one open handle.
abbrev saved : Dcb → WinSerial → WinSerial
saved old s = record s { backend_data = record s.backend_data { old_dcb = old } }

pub data Shape : WinWorld → Type 0 where
  gone :
      (es : List WinEvent) → open_handles es ≡ [] → Shape (record { ctx = none; win_events = es })
  idle : (s : WinSerial) (es : List WinEvent) → open_handles es ≡ [] → Shape (at (shut s) es)
  busy :
      (s : WinSerial) (h : ℕ) (es : List WinEvent)
      → open_handles es ≡ h ∷ []
      → Shape (at (opened_on h s.backend_data.old_dcb s) es)

attempt-Shape :
    (s : WinSerial) (es : List WinEvent)
    → open_handles es ≡ []
    → (handle : Option ℕ) (got_state closed_ok state_ok : Bool) (old : Dcb) (e : ℕ)
      (at_close : WinCloseAnswer)
    → (closed_ok ≡ true) × (at_close.revert_ok ≡ true) × (at_close.close_ok ≡ true)
    → After
        (λ _. Shape)
        (win32_serial_open
          (record {
            handle = handle;
            got_state = got_state;
            old = old;
            closed_ok = closed_ok;
            state_ok = state_ok;
            last_error = e;
            at_close = at_close;
          })
          (at (shut s) es))
unfolding win32_serial_open load_port change_port give_back set_up_port win32_serial_close
    open_handles configure
attempt-Shape s es quiet none got_state closed_ok state_ok old e at_close c =
    idle (set_error e s) es quiet
attempt-Shape s es quiet (some h) false closed_ok state_ok old e at_close (a, b, c) = rw a (
    idle (saved old (set_error e s)) (closed_handle (some h) ∷ created h s.backend_data.device ∷ es)
      (rw (==-true h h refl) quiet))
attempt-Shape s es quiet (some h) true closed_ok false old e at_close (a, b, c) =
    rw (b, c)
      (idle (saved old (set_error e s))
        (closed_handle (some h) ∷ set_state (some h) old ∷ created h s.backend_data.device ∷ es)
        (rw (==-true h h refl) quiet))
attempt-Shape s es quiet (some h) true closed_ok true old e at_close c =
    busy (saved old s) h
      (set_state (some h) (configure s.backend_data old) ∷ created h s.backend_data.device ∷ es)
      (rw quiet refl)

pub open-Shape : (answer : WinOpenAnswer) → CleansUp answer → Keeps Shape (win32_serial_open answer)
unfolding win32_serial_open load_port
open-Shape answer c w (gone es quiet) = tt
open-Shape answer c w (idle s es quiet) =
    attempt-Shape s es quiet answer.handle answer.got_state answer.closed_ok answer.state_ok
      answer.old answer.last_error answer.at_close c
open-Shape answer c w (busy s h es one) = busy s h es one

pub close-Shape :
    (revert_ok close_ok : Bool) (e : ℕ)
    → Keeps Shape
        (win32_serial_close (record { revert_ok = revert_ok; close_ok = close_ok; last_error = e }))
unfolding win32_serial_close load_port change_port open_handles
close-Shape revert_ok close_ok e w (gone es quiet) = tt
close-Shape revert_ok close_ok e w (idle s es quiet) = idle s es quiet
close-Shape false close_ok e w (busy s h es one) = busy (set_error e s) h es one
close-Shape true false e w (busy s h es one) =
    busy (set_error e s) h (set_state (some h) s.backend_data.old_dcb ∷ es) one
close-Shape true true e w (busy s h es one) =
    idle s (closed_handle (some h) ∷ set_state (some h) s.backend_data.old_dcb ∷ es)
      (rw (one, ==-true h h refl) refl)

timeout-Shape :
    (mtimeout : ℤ) (succeeds : Bool) (e : ℕ)
    → Keeps Shape
        (win32_serial_set_timeout mtimeout (record { succeeds = succeeds; last_error = e }))
unfolding win32_serial_set_timeout load_port change_port open_handles
timeout-Shape mtimeout succeeds e w (gone es quiet) = tt
timeout-Shape mtimeout false e w (idle s es quiet) = idle (set_error e s) es quiet
timeout-Shape mtimeout true e w (idle s es quiet) =
    idle s (set_timeouts none (timeouts_of mtimeout) ∷ es) quiet
timeout-Shape mtimeout false e w (busy s h es one) = busy (set_error e s) h es one
timeout-Shape mtimeout true e w (busy s h es one) =
    busy s h (set_timeouts (some h) (timeouts_of mtimeout) ∷ es) one

pub clean-Shape :
    (succeeds : Bool) (e : ℕ)
    → Keeps Shape (win32_serial_clean_buffer (record { succeeds = succeeds; last_error = e }))
unfolding win32_serial_clean_buffer load_port change_port open_handles
clean-Shape succeeds e w (gone es quiet) = tt
clean-Shape false e w (idle s es quiet) = idle (set_error e s) es quiet
clean-Shape true e w (idle s es quiet) = idle s (purged none ∷ es) quiet
clean-Shape false e w (busy s h es one) = busy (set_error e s) h es one
clean-Shape true e w (busy s h es one) = busy s h (purged (some h) ∷ es) one

pub write-Shape :
    (buf : List ℕ) (mtimeout : ℤ) (answer : Option ℕ) (e : ℕ)
    → Keeps Shape (win32_serial_write buf mtimeout answer e)
unfolding win32_serial_write load_port change_port open_handles
write-Shape buf mtimeout answer e w (gone es quiet) = tt
write-Shape buf mtimeout answer e w (idle s es quiet) = idle s es quiet
write-Shape buf mtimeout none e w (busy s h es one) = busy (set_error e s) h es one
write-Shape buf mtimeout (some n) e w (busy s h es one) =
    busy s h (wrote (some h) (take n buf) ∷ es) one

-- The end of `win32_serial_read`, on a port that is open.
read_end-Shape :
    (bytes : List ℕ) (h : ℕ) (v : WinWorld) → Shape v → Shape (log (received (some h) bytes) v)
unfolding open_handles
read_end-Shape bytes h v (gone es quiet) = gone (received (some h) bytes ∷ es) quiet
read_end-Shape bytes h v (idle s es quiet) = idle s (received (some h) bytes ∷ es) quiet
read_end-Shape bytes h v (busy s k es one) = busy s k (received (some h) bytes ∷ es) one

error-Shape : (e : ℕ) → Keeps Shape (change_port (set_error e))
unfolding change_port load_port
error-Shape e w (gone es quiet) = tt
error-Shape e w (idle s es quiet) = idle (set_error e s) es quiet
error-Shape e w (busy s h es one) = busy (set_error e s) h es one

pub read-Shape :
    (len : ℕ) (mtimeout : ℤ) (a : WinAnswer) (incoming : Option (List ℕ)) (e : ℕ)
    → Keeps Shape (win32_serial_read len mtimeout a incoming e)
unfolding win32_serial_read load_port
read-Shape len mtimeout a incoming e w (gone es quiet) = tt
read-Shape len mtimeout a incoming e w (idle s es quiet) = idle s es quiet
read-Shape len mtimeout a incoming e w (busy s h es one) =
    let receive : Option (List ℕ) → M WinWorld (Option (List ℕ)) = λ o. elim o [
      | none ↦ do change_port (set_error e); pure none
      | some bytes ↦ do
        modify (log (received (some h) (take len bytes)))
        pure (some (take len bytes))
    ] in
    bind Shape
      (if not_negative mtimeout then ignore (win32_serial_set_timeout mtimeout a) else skip)
      (λ _. receive incoming)
      (branch Shape (not_negative mtimeout) (ignore (win32_serial_set_timeout mtimeout a)) skip
        (bind Shape (win32_serial_set_timeout mtimeout a) (λ _. skip)
          (timeout-Shape mtimeout a.succeeds a.last_error) (λ _ v i. i))
        (λ v i. i))
      (λ _.
        split_option Shape incoming (change_port (set_error e) >> pure none)
          (λ bytes.
            modify (log (received (some h) (take len bytes))) >> pure (some (take len bytes)))
          (bind Shape (change_port (set_error e)) (λ _. pure none) (error-Shape e) (λ _ v i. i))
          (λ bytes _ v i. read_end-Shape (take len bytes) h v i))
      (at (opened_on h s.backend_data.old_dcb s) es) (busy s h es one)

pub destory-Shape :
    (answer : WinCloseAnswer)
    → answer.revert_ok ≡ true
    → answer.close_ok ≡ true
    → Keeps Shape (win32_serial_destory answer)
unfolding win32_serial_destory win32_serial_close load_port change_port open_handles
destory-Shape answer reverted closed w (gone es quiet) = tt
destory-Shape answer reverted closed w (idle s es quiet) = gone es quiet
destory-Shape answer reverted closed w (busy s h es one) =
    rw (reverted, closed)
      (gone (closed_handle (some h) ∷ set_state (some h) s.backend_data.old_dcb ∷ es)
        (rw (one, ==-true h h refl) refl))

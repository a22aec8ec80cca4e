-- ===== src/Serial/Win/Handles.antt =====
-- The handles that the calls of src/serial/serial_win.c leave open, over runs of any length.
use libzio.Base.{◌≡◌, refl, subst, none, some, []}
use libzio.Effects.{ok, M}
use libzio.Effects.Keeps.{After, Keeps}
use libzio.Serial.Win.State.{WinSerial, WinWorld, open_handles}
use libzio.Serial.Win.Calls.{
  valid, win32_serial_close, win32_serial_open, win32_serial_read, win32_serial_write,
  win32_serial_clean_buffer, win32_serial_destory,
}
use libzio.Serial.Win.Outcomes.{held}
use libzio.Serial.Win.Runs.{
  Step, opens, closes, reads, writes, cleans, destroys, Reach, start, later,
}
use libzio.Serial.Win.Shapes.{
  Shape, gone, idle, busy, open-Shape, close-Shape, clean-Shape, write-Shape, read-Shape,
  destory-Shape,
}

after_step :
    {A : Type 0} (m : M WinWorld A) {w v : WinWorld} {a : A}
    → Keeps Shape m
    → m w ≡ ok (a, v)
    → Shape w
    → Shape v
after_step m {w} keeps e i = subst (After (λ _. Shape)) e (keeps w i)

Step-Shape : {w v : WinWorld} → Step w v → Shape w → Shape v
Step-Shape (opens answer c e) = after_step (win32_serial_open answer) (open-Shape answer c) e
Step-Shape (closes answer e) =
    after_step (win32_serial_close answer)
      (close-Shape answer.revert_ok answer.close_ok answer.last_error) e
Step-Shape (reads len mtimeout a incoming last_error e) =
    after_step (win32_serial_read len mtimeout a incoming last_error)
      (read-Shape len mtimeout a incoming last_error) e
Step-Shape (writes buf mtimeout answer last_error e) =
    after_step (win32_serial_write buf mtimeout answer last_error)
      (write-Shape buf mtimeout answer last_error) e
Step-Shape (cleans answer e) =
    after_step (win32_serial_clean_buffer answer) (clean-Shape answer.succeeds answer.last_error) e
Step-Shape (destroys answer reverted closed e) =
    after_step (win32_serial_destory answer) (destory-Shape answer reverted closed) e

Reach-Shape : {s : WinSerial} {w : WinWorld} → Reach s w → Shape w
unfolding open_handles
Reach-Shape {s} start = idle s [] refl
Reach-Shape (later r st) = Step-Shape st (Reach-Shape r)

-- What is known of a port: it is open exactly if it has a handle, and that is the one open handle.
abbrev pub Accounted : WinWorld → Type 0
Accounted w = elim w.ctx [
  | none ↦ open_handles w.win_events ≡ []
  | some s ↦
      (s.is_open ≡ valid s.backend_data.fd) × (open_handles w.win_events ≡ held s.backend_data.fd)
]

accounted : {w : WinWorld} → Shape w → Accounted w
accounted (gone es quiet) = quiet
accounted (idle s es quiet) = (refl, quiet)
accounted (busy s h es one) = (refl, one)

-- After any number of calls on a port on Windows, in any order and whichever calls of the system
-- fail, if those succeed by which `win32_serial_open` cleans up after a failure and
-- `win32_serial_destory` closes the port: the port is open exactly if it has a handle, the handles
-- that are open are then this one and else none, and none is open when the port is freed.
pub Reach-Accounted : {s : WinSerial} {w : WinWorld} → Reach s w → Accounted w
Reach-Accounted r = accounted (Reach-Shape r)

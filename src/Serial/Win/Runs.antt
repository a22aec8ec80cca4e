-- ===== src/Serial/Win/Runs.antt =====
-- Runs of calls of src/serial/serial_win.c on one port, as a relation on what they leave.
use libzio.Base.{ℕ, ◌≡◌, Bool, true, Option, List, []}
use libzio.Base.Int.{ℤ}
use libzio.Effects.{ok}
use libzio.Serial.Win.State.{WinSerial, WinWorld}
use libzio.Serial.Win.Calls.{
  WinCloseAnswer, WinOpenAnswer, WinAnswer, win32_serial_close, win32_serial_open,
  win32_serial_read, win32_serial_write, win32_serial_clean_buffer, win32_serial_destory,
}
use libzio.Serial.Win.Outcomes.{shut, at, CleansUp}

-- One call on the port, with any answers of the system but those by which `win32_serial_open` or
-- `win32_serial_destory` fails to clean up.
pub data Step (w : WinWorld) : WinWorld → Type 0 where
  opens :
      {done : Bool} {v : WinWorld} (answer : WinOpenAnswer)
      → CleansUp answer
      → win32_serial_open answer w ≡ ok (done, v)
      → Step w v
  closes :
      {done : Bool} {v : WinWorld} (answer : WinCloseAnswer)
      → win32_serial_close answer w ≡ ok (done, v)
      → Step w v
  reads :
      {bytes : Option (List ℕ)} {v : WinWorld} (len : ℕ) (mtimeout : ℤ) (a : WinAnswer)
      (incoming : Option (List ℕ)) (last_error : ℕ)
      → win32_serial_read len mtimeout a incoming last_error w ≡ ok (bytes, v)
      → Step w v
  writes :
      {n : Option ℕ} {v : WinWorld} (buf : List ℕ) (mtimeout : ℤ) (answer : Option ℕ)
      (last_error : ℕ)
      → win32_serial_write buf mtimeout answer last_error w ≡ ok (n, v)
      → Step w v
  cleans :
      {done : Bool} {v : WinWorld} (answer : WinAnswer)
      → win32_serial_clean_buffer answer w ≡ ok (done, v)
      → Step w v
  destroys :
      {v : WinWorld} (answer : WinCloseAnswer)
      → answer.revert_ok ≡ true
      → answer.close_ok ≡ true
      → win32_serial_destory answer w ≡ ok (tt, v)
      → Step w v

-- From a port as `serial_new` makes it, without a handle, before any call.
pub data Reach (s : WinSerial) : WinWorld → Type 0 where
  start : Reach s (at (shut s) [])
  later : {w v : WinWorld} → Reach s w → Step w v → Reach s v

-- ===== src/Serial/Win/Faults.antt =====
-- What src/serial/serial_win.c does where it differs from what it means to, and from
-- src/serial/serial_unix.c.
use libzio.Base.{ℕ, ◌≡◌, refl, true, false, none, some, List, ◌∷◌, ==-true}
use libzio.Effects.{ok, and_then, ◌>>=◌}
use libzio.Effects.Keeps.{Returns}
use libzio.Serial.Line.{load_ctx-ok}
use libzio.Serial.State.{Ptr, Serial, SerialWorld}
use libzio.Serial.Unix.{CloseAnswer, unix_serial_close}
use libzio.Serial.Win.State.{WinSerial, WinEvent, open_handles, load_port, change_port}
use libzio.Serial.Win.Calls.{
  WinCloseAnswer, WinOpenAnswer, win32_serial_open, win32_serial_close, set_up_port,
}
use libzio.Serial.Win.Outcomes.{shut, at}

-- If `SetCommState` fails for the handle `h` in `win32_serial_open`, and again in the
-- `win32_serial_close` that it then calls, the port is not open but keeps `h`. The next call of
-- `win32_serial_open` puts a new handle in its place: when that succeeds, and the port is then
-- closed without a failure, the port is closed and has no handle, and `h` is still open.
pub open-lost_handle :
    (s : WinSerial) (es : List WinEvent) (first again : WinOpenAnswer) (last : WinCloseAnswer)
    {h k : ℕ}
    → first.handle ≡ some h
    → first.got_state ≡ true
    → first.state_ok ≡ false
    → first.at_close.revert_ok ≡ false
    → again.handle ≡ some k
    → again.got_state ≡ true
    → again.state_ok ≡ true
    → last.revert_ok ≡ true
    → last.close_ok ≡ true
    → Returns
        (λ done v.
          (done ≡ false)
          × ((p : WinSerial) × (v.ctx
                ≡ some (record p {
                  is_open = false;
                  backend_data = record p.backend_data { fd = some h };
                }))))
        (win32_serial_open first (at (shut s) es))
      × Returns
          (λ done v.
            (done ≡ true)
            × ((p : WinSerial) × (v.ctx ≡ some (shut p)))
            × (open_handles v.win_events ≡ h ∷ open_handles es))
          (and_then
            (win32_serial_open first (at (shut s) es))
            λ _. (win32_serial_open again >>= λ _. win32_serial_close last))
unfolding win32_serial_open load_port change_port set_up_port win32_serial_close open_handles
open-lost_handle s es first again last {h} {k} a b c d e f g i j =
    let saved : WinSerial = record s {
      err_code = first.at_close.last_error;
      backend_data = record s.backend_data { old_dcb = again.old };
    } in
    let s1 : WinSerial = record s {
      err_code = first.at_close.last_error;
      backend_data = record s.backend_data { old_dcb = first.old };
    } in
    rw (a, b, c, d, e, f, g, i, j, ==-true k k refl)
      ((refl, (s1, refl)), (refl, (saved, refl), refl))

-- Closing a port that is not open is a success on Windows and a failure on Unix, whatever the
-- system would answer; neither changes anything.
pub close-differs :
    (s : WinSerial) (es : List WinEvent) (answer : WinCloseAnswer) (p : Ptr) (w : SerialWorld)
    (q : Serial) (unix_answer : CloseAnswer)
    → w.ports p ≡ some q
    → q.backend_data.s ≡ none
    → (win32_serial_close answer (at (shut s) es) ≡ ok (true, at (shut s) es))
      × (unix_serial_close p unix_answer w ≡ ok (false, w))
unfolding win32_serial_close load_port unix_serial_close
close-differs s es answer p w q unix_answer there closed =
    (refl, rw (load_ctx-ok p w there, closed) refl)

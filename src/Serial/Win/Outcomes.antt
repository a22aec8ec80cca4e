-- ===== src/Serial/Win/Outcomes.antt =====
-- What the calls of src/serial/serial_win.c that open and close a port make of it, on every branch.
use libzio.Base.{
  ℕ, ◌≡◌, refl, Bool, true, false, ◌&&◌, Option, none, some, List, [], ◌∷◌, ◌++◌, ==-true,
  if◌then◌else◌,
}
use libzio.Effects.{ok, and_then}
use libzio.Effects.Keeps.{Returns}
use libzio.Serial.Win.State.{
  Dcb, WinSerial, WinWorld, WinEvent, created, closed_handle, set_state, open_handles, load_port,
  change_port,
}
use libzio.Serial.Win.Calls.{
  configure, set_handle, WinCloseAnswer, WinOpenAnswer, valid, win32_serial_close,
  win32_serial_open, give_back, set_up_port,
}

-- A port that is closed, and one that is open on the handle `h`.
abbrev pub shut : WinSerial → WinSerial
shut s = record (set_handle none s) { is_open = false }

abbrev pub opened_on : ℕ → Dcb → WinSerial → WinSerial
opened_on h old s = record s {
  is_open = true;
  backend_data = record s.backend_data { fd = some h; old_dcb = old };
}

abbrev pub at : WinSerial → List WinEvent → WinWorld
at s es = record { ctx = some s; win_events = es }

-- The handle of a port, as a list.
abbrev pub held : Option ℕ → List ℕ
held none = []
held (some h) = h ∷ []

-- Every call of `CloseHandle` and every way back to the saved configuration succeeds.
abbrev pub CleansUp : WinOpenAnswer → Type 0
CleansUp answer =
    (answer.closed_ok ≡ true)
    × (answer.at_close.revert_ok ≡ true)
    × (answer.at_close.close_ok ≡ true)

abbrev pub all_ok : WinOpenAnswer → Bool
all_ok answer = valid answer.handle && (answer.got_state && answer.state_ok)

-- A closed port after an attempt to open it that has the result `done`.
abbrev pub attempted : WinSerial → WinOpenAnswer → Bool → WinSerial
attempted s answer done = record s {
  is_open = done;
  err_code = if done then s.err_code else answer.last_error;
  backend_data = record s.backend_data {
    fd = if done then answer.handle else none;
    old_dcb = if valid answer.handle then answer.old else s.backend_data.old_dcb;
  };
}

abbrev pub Attempted : WinSerial → List WinEvent → WinOpenAnswer → Bool → WinWorld → Type 0
Attempted s es answer done v =
    (done ≡ all_ok answer)
    × (v.ctx ≡ some (attempted s answer done))
    × (open_handles v.win_events ≡ (if done then held answer.handle else []) ++ open_handles es)

open_branches :
    (s : WinSerial) (es : List WinEvent) (handle : Option ℕ) (got_state closed_ok state_ok : Bool)
    (old : Dcb) (last_error : ℕ) (at_close : WinCloseAnswer)
    → (closed_ok ≡ true) × (at_close.revert_ok ≡ true) × (at_close.close_ok ≡ true)
    → let answer : WinOpenAnswer = record {
      handle = handle;
      got_state = got_state;
      old = old;
      closed_ok = closed_ok;
      state_ok = state_ok;
      last_error = last_error;
      at_close = at_close;
    } in
      Returns (Attempted (shut s) es answer) (win32_serial_open answer (at (shut s) es))
unfolding win32_serial_open load_port change_port give_back set_up_port win32_serial_close
    open_handles
open_branches s es none got_state closed_ok state_ok old e at_close c = (refl, refl, refl)
open_branches s es (some h) false closed_ok state_ok old e at_close (a, b, c) =
    rw (a, ==-true h h refl) (refl, refl, refl)
open_branches s es (some h) true closed_ok false old e at_close (a, b, c) =
    rw (b, c, ==-true h h refl) (refl, refl, refl)
open_branches s es (some h) true closed_ok true old e at_close c = (refl, refl, refl)

-- A call of `win32_serial_open` on a closed port returns, whichever call of the system fails, if
-- those that clean up succeed. It has the result 0 exactly if the handle is valid and both states
-- of the line were got and set, and then the port is open and holds the handle, which is one more
-- open handle. Otherwise the port is still closed, without a handle but with the error, and no
-- handle stays open.
pub open_lem :
    (s : WinSerial) (es : List WinEvent) (answer : WinOpenAnswer)
    → CleansUp answer
    → Returns (Attempted (shut s) es answer) (win32_serial_open answer (at (shut s) es))
open_lem s es answer c =
    open_branches s es answer.handle answer.got_state answer.closed_ok answer.state_ok answer.old
      answer.last_error answer.at_close c

-- A port that is opened and then closed on Windows, with every call of the system accepted, is as
-- it was but for the saved configuration. On the way the new handle is created, set to what the
-- parameters of the port ask for, set back to what it was, and then closed.
pub win_close-open :
    (s : WinSerial) (es : List WinEvent) (answer : WinOpenAnswer) (again : WinCloseAnswer) {h : ℕ}
    → answer.handle ≡ some h
    → answer.got_state ≡ true
    → answer.state_ok ≡ true
    → again.revert_ok ≡ true
    → again.close_ok ≡ true
    → and_then (win32_serial_open answer (at (shut s) es)) (λ _. win32_serial_close again)
      ≡ ok (
        true,
        at
            (record (shut s) {
              backend_data = record (shut s).backend_data { old_dcb = answer.old };
            })
            (closed_handle (some h)
              ∷ set_state (some h) answer.old
              ∷ set_state (some h) (configure (shut s).backend_data answer.old)
              ∷ created h s.backend_data.device
              ∷ es),
      )
unfolding win32_serial_open load_port change_port set_up_port win32_serial_close
win_close-open s es answer again made got set reverted closed =
    rw (made, got, set, reverted, closed) refl

-- ===== src/Serial/Win/Tests.antt =====
-- Runs of src/serial/serial_win.c, and the theorems about it at a concrete port.
use libzio.Base.{◌≡◌, refl, true, false, none, some, [], ◌∷◌}
use libzio.Effects.{and_then, ◌>>=◌}
use libzio.Effects.Keeps.{Returns}
use libzio.Serial.State.{Termios, SerialRtu}
use libzio.Serial.Unix.{settings}
use libzio.Serial.Win.Calls.{
  configure, cbr_of, byte_size_of, WinCloseAnswer, WinOpenAnswer, win32_serial_open,
  win32_serial_close, win32_serial_destory, set_up_port,
}
use libzio.Serial.Win.Config.{line_of_dcb, line_of_termios, configure-settings}
use libzio.Serial.Win.Faults.{open-lost_handle}
use libzio.Serial.Win.Handles.{Accounted, Reach-Accounted}
use libzio.Serial.Win.Outcomes.{shut, at, Attempted, open_lem}
use libzio.Serial.Win.Runs.{opens, destroys, Reach, start, later}
use libzio.Serial.Win.State.{
  Dcb, WinRtu, WinSerial, WinWorld, created, closed_handle, set_state, open_handles, load_port,
  change_port,
}

-- What the line of a port is set to before the program starts.
abbrev before : Dcb
before = record {
  baud_rate = 1200;
  byte_size = 7;
  stop_bits = 0;
  parity = 2;
  f_parity = true;
  f_tx_continue_on_xoff = false;
  f_out_x = true;
  f_in_x = true;
  f_binary = true;
  f_abort_on_error = true;
  others = 3;
}

-- COM4 at 19200 baud, seven bits, odd parity, two stop bits.
abbrev win_rtu : WinRtu
win_rtu = record {
  device = 4;
  baud = 19200;
  data_bit = 7;
  stop_bit = 2;
  parity = 79;
  fd = none;
  old_dcb = before;
}

abbrev win_port : WinSerial
win_port = record {
  debug = false;
  is_open = false;
  err_code = 0;
  share_mode = 1;
  backend_data = win_rtu;
}

configure_run : configure win_rtu before ≡ record {
  baud_rate = 19200;
  byte_size = 7;
  stop_bits = 2;
  parity = 1;
  f_parity = true;
  f_tx_continue_on_xoff = true;
  f_out_x = false;
  f_in_x = false;
  f_binary = true;
  f_abort_on_error = false;
  others = 3;
}
unfolding configure cbr_of byte_size_of
configure_run = refl

abbrev zero_tios : Termios
zero_tios = record {
  ispeed = 0;
  ospeed = 0;
  csize = 5;
  cread = false;
  clocal = false;
  cstopb = false;
  parenb = false;
  parodd = false;
  icanon = false;
  echo = false;
  echoe = false;
  isig = false;
  inpck = false;
  ixon = false;
  ixoff = false;
  ixany = false;
  opost = false;
  vmin = 0;
  vtime = 0;
}

-- The same port on Unix.
abbrev unix_rtu : SerialRtu
unix_rtu = record {
  device = 4;
  baud = 19200;
  data_bit = 7;
  stop_bit = 2;
  parity = 79;
  old_tios = zero_tios;
  s = none;
}

configure-settings_example :
    line_of_dcb (configure win_rtu before) ≡ line_of_termios (settings unix_rtu)
configure-settings_example = configure-settings win_rtu unix_rtu before refl refl refl refl

abbrev closes_well : WinCloseAnswer
closes_well = record { revert_ok = true; close_ok = true; last_error = 0 }

abbrev opens_well : WinOpenAnswer
opens_well = record {
  handle = some 20;
  got_state = true;
  old = before;
  closed_ok = true;
  state_ok = true;
  last_error = 0;
  at_close = closes_well;
}

-- The line does not take the configuration.
abbrev refused : WinOpenAnswer
refused = record opens_well { state_ok = false; last_error = 87 }

open_lem_example :
    Returns
      (Attempted (shut win_port) [] refused)
      (win32_serial_open refused (at (shut win_port) []))
open_lem_example = open_lem win_port [] refused (refl, refl, refl)

-- The port is opened and freed.
abbrev opened_world : WinWorld
opened_world = record {
  ctx = some (record win_port { is_open = true; backend_data = record win_rtu { fd = some 20 } });
  win_events = set_state (some 20) (configure win_rtu before) ∷ created 20 4 ∷ [];
}

abbrev freed_world : WinWorld
freed_world = record {
  ctx = none;
  win_events = closed_handle (some 20) ∷ set_state (some 20) before ∷ opened_world.win_events;
}

freed_run : Reach win_port freed_world
unfolding win32_serial_open win32_serial_destory win32_serial_close load_port change_port
    set_up_port
freed_run =
    later (later start (opens {done = true} {v = opened_world} opens_well (refl, refl, refl) refl))
      (destroys {v = freed_world} closes_well refl refl refl)

Reach-Accounted_example : Accounted freed_world
Reach-Accounted_example = Reach-Accounted freed_run

open-lost_handle_example :
    let stuck_port = record refused { at_close = record closes_well { revert_ok = false } } in
    Returns
      (λ done v.
        (done ≡ false)
        × ((p : WinSerial) × (v.ctx
              ≡ some (record p {
                is_open = false;
                backend_data = record p.backend_data { fd = some 20 };
              }))))
      (win32_serial_open stuck_port (at win_port []))
    × Returns
        (λ done v.
          (done ≡ true)
          × ((p : WinSerial) × (v.ctx ≡ some (shut p)))
          × (open_handles v.win_events ≡ 20 ∷ open_handles []))
        (and_then (win32_serial_open stuck_port (at win_port [])) λ _.
          (win32_serial_open (record opens_well { handle = some 24 }) >>= λ _.
          win32_serial_close closes_well))
open-lost_handle_example =
    open-lost_handle win_port []
      (record refused { at_close = record closes_well { revert_ok = false } })
      (record opens_well { handle = some 24 }) closes_well refl refl refl refl refl refl refl refl
      refl

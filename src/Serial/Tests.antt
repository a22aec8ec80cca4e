-- ===== src/Serial/Tests.antt =====
-- Runs of src/serial, and the theorems about it at concrete ports.
use libzio.Base.{ℕ, ◌≡◌, refl, true, false, none, some, [], ◌∷◌, arith, if◌then◌else◌, ◌==◌}
use libzio.Base.Int.{pos, negsuc}
use libzio.Effects.{ok, pure, skip, and_then}
use libzio.Effects.Keeps.{Returns}
use libzio.Links.{kernel_links}
use libzio.Serial.Faults.{create-junk, unix_destory}
use libzio.Serial.Line.{AsAsked, close-open}
use libzio.Serial.Port.{
  SerialBackend, create, find_from, find_serial, find_manger, serial_close, serial_destory,
}
use libzio.Serial.Reading.{Through, read_rounds_lem}
use libzio.Serial.Registry.{registered, find_serial_lem}
use libzio.Serial.Sharing.{free_sm, changed_sm, one_less, one_left, close-shared, destory-shared}
use libzio.Serial.State.{
  Termios, SerialRtu, Serial, SerialWorld, sys_close, set_attributes, set_at, load_ctx, load_sm,
}
use libzio.Serial.Unix.{
  settings, speed_of, csize_of, OpenAnswer, CloseAnswer, ReadRound, read_rounds, unix_serial_open,
  unix_serial_close, set_fd,
}

abbrev zero_tios : Termios
zero_tios = record {
  ispeed = 0;
  ospeed = 0;
  csize = 5;
  cread = false;
  clocal = false;
  cstopb = false;
  parenb = false;
  parodd = false;
  icanon = false;
  echo = false;
  echoe = false;
  isig = false;
  inpck = false;
  ixon = false;
  ixoff = false;
  ixany = false;
  opost = false;
  vmin = 0;
  vtime = 0;
}

-- Port 2 at 19200 baud, seven bits, even parity, two stop bits.
abbrev rtu : SerialRtu
rtu = record {
  device = 2;
  baud = 19200;
  data_bit = 7;
  stop_bit = 2;
  parity = 69;
  old_tios = zero_tios;
  s = none;
}

settings_run : settings rtu ≡ record zero_tios {
  ispeed = 19200;
  ospeed = 19200;
  csize = 7;
  cread = true;
  clocal = true;
  cstopb = true;
  parenb = true;
  inpck = true;
}
unfolding settings speed_of csize_of
settings_run = refl

abbrev closed_port : Serial
closed_port = record {
  debug = false;
  is_open = false;
  err_code = 0;
  share_mode = 1;
  backend_data = rtu;
}

abbrev open_port : Serial
open_port = record (set_fd (some 9) closed_port) { is_open = true }

-- The port at 5 has the manager at 6, with two references and two opens.
abbrev shared : SerialWorld
shared = record {
  ports = set_at (λ _. none) 5 (some open_port);
  managers = set_at (λ _. none) 6 (some (free_sm 5 2 2));
  serial_mangers = 6 ∷ [];
  g_mangers = false;
  line_events = [];
}

-- The port at 5 is closed.
abbrev idle : SerialWorld
idle = record shared { ports = set_at (λ _. none) 5 (some closed_port) }

-- A backend in which every call fails.
abbrev dead : SerialBackend
dead = record {
  open_port = λ p. pure false;
  read_port = λ p len t. pure (negsuc 0, []);
  write_port = λ p buf. pure none;
  clean = λ p. pure false;
  close_port = λ p. pure false;
  destory = λ p. skip;
}

abbrev granted : OpenAnswer
granted = record {
  new_fd = some 9;
  old = zero_tios;
  speed_ok = true;
  attributes_ok = true;
  errno = 0;
}

abbrev settled : CloseAnswer
settled = record { attributes_ok = true; errno = 0 }

close-open_example :
    Returns
      (λ done v.
        (done ≡ true)
        × (v.ports 5 ≡ some closed_port)
        × ((t : Termios) × AsAsked rtu t
            × (v.line_events ≡ sys_close 9 ∷ set_attributes 9 zero_tios ∷ set_attributes 9 t ∷ [])))
      (and_then (unix_serial_open 5 granted idle) λ _. unix_serial_close 5 settled)
close-open_example =
    close-open 5 idle closed_port refl granted {fd = 9} refl refl refl settled refl refl

-- Three bytes wait in the first round, and then the line fails.
abbrev rounds : ℕ → ReadRound
rounds n =
    if n == 0
    then record { timed_out = false; incoming = some (1 ∷ 2 ∷ 3 ∷ []) }
    else record { timed_out = false; incoming = none }

read_rounds_lem_example : Through rounds 8 (pos 100) (read_rounds rounds (pos 100) 8 0 8 [])
read_rounds_lem_example = read_rounds_lem rounds (pos 100) 8

find_serial_lem_example :
    find_serial kernel_links 2 shared ≡ ok (registered shared 2 (6 ∷ []), shared)
find_serial_lem_example =
    find_serial_lem kernel_links shared 2 (refl, tt) ((free_sm 5 2 2, open_port, refl, refl), tt)

close-shared_example :
    let v = changed_sm 6 one_less (free_sm 5 2 2) shared in
    (v.managers 6 ≡ some (free_sm 5 2 1))
    × (serial_close kernel_links dead 5 shared
        ≡ (if 1 == 0 then dead.close_port 5 v else ok (true, v)))
unfolding find_manger find_serial find_from load_ctx load_sm
close-shared_example = close-shared kernel_links dead 5 6 shared 2 1 refl refl

destory-shared_example :
    let v = changed_sm 6 one_left (free_sm 5 2 2) (record shared { g_mangers = true }) in
    (v.managers 6 ≡ some (free_sm 5 1 2))
    × (serial_destory kernel_links dead 5 shared ≡ (
        if 1 == 0
        then and_then
            (dead.destory 5 (record v { serial_mangers = [] }))
            (λ _ x. ok (tt, record x { managers = set_at x.managers 6 none; g_mangers = false }))
        else ok (tt, record v { g_mangers = false })))
unfolding find_manger find_serial find_from load_ctx load_sm
destory-shared_example = destory-shared kernel_links dead 5 6 shared 1 2 refl refl refl

-- A parity of 'X', and a block that holds the number 0 where the descriptor belongs.
abbrev odd_rtu : SerialRtu
odd_rtu = record rtu { parity = 88 }

create-junk_example :
    Returns
      (λ made v.
        (made ≡ none)
        × (v.ports 7 ≡ none)
        × (v.line_events ≡ sys_close 0 ∷ set_attributes 0 zero_tios ∷ []))
      (create kernel_links
        (unix_destory settled dead)
        odd_rtu
        1
        (record { ctx = some 7; junk = set_fd (some 0) closed_port; sm = some 8 })
        shared)
create-junk_example =
    create-junk kernel_links dead settled odd_rtu 1 closed_port (some 8) shared 7 0
      (λ e. ground arith) (λ e. ground arith) (λ e. ground arith) refl

-- ===== src/Serial/Win/Calls.antt =====
-- The functions of src/serial/serial_win.c. What the system answers is an argument.
use libzio.Base.{
  ℕ, suc, ◌-◌, ◌%◌, ◌^◌, Bool, true, false, not, ◌||◌, Option, none, some, List, ◌==◌,
  if◌then◌else◌, length, take, min,
}
use libzio.Base.Int.{ℤ, pos, negsuc}
use libzio.Effects.{M, ◌>>=◌, ◌>>◌, pure, modify, skip, ignore}
use libzio.Serial.Unix.{parity_none, parity_even, not_negative}
use libzio.Serial.Win.State.{
  Dcb, WinRtu, WinSerial, CommTimeouts, WinWorld, created, closed_handle, set_state, set_timeouts,
  received, wrote, purged, load_port, change_port, log,
}

-- ONESTOPBIT and TWOSTOPBITS
abbrev pub one_stop_bit : ℕ
one_stop_bit = 0

abbrev pub two_stop_bits : ℕ
two_stop_bits = 2

-- NOPARITY, ODDPARITY and EVENPARITY
abbrev pub no_parity : ℕ
no_parity = 0

abbrev pub odd_parity : ℕ
odd_parity = 1

abbrev pub even_parity : ℕ
even_parity = 2

-- The `switch` on the baud rate; a constant `CBR_110` is its number.
unfoldable pub cbr_of : ℕ → ℕ
cbr_of baud =
    if baud == 110
    then 110
    else if baud == 300
    then 300
    else if baud == 600
    then 600
    else if baud == 1200
    then 1200
    else if baud == 2400
    then 2400
    else if baud == 4800
    then 4800
    else if baud == 9600
    then 9600
    else if baud == 19200
    then 19200
    else if baud == 38400
    then 38400
    else if baud == 57600
    then 57600
    else if baud == 115200
    then 115200
    else 9600

-- The `switch` on the data bits.
unfoldable pub byte_size_of : ℕ → ℕ
byte_size_of data_bit =
    if data_bit == 5 then 5 else if data_bit == 6 then 6 else if data_bit == 7 then 7 else 8

-- The new configuration, made from the one that `GetCommState` has given.
unfoldable pub configure : WinRtu → Dcb → Dcb
configure r old = record old {
  baud_rate = cbr_of r.baud;
  byte_size = byte_size_of r.data_bit;
  stop_bits = if r.stop_bit == 1 then one_stop_bit else two_stop_bits;
  parity =
      if r.parity == parity_none
      then no_parity
      else if r.parity == parity_even
      then even_parity
      else odd_parity;
  f_parity = not (r.parity == parity_none);
  f_tx_continue_on_xoff = true;
  f_out_x = false;
  f_in_x = false;
  f_binary = true;
  f_abort_on_error = false;
}

abbrev pub set_handle : Option ℕ → WinSerial → WinSerial
set_handle h s = record s { backend_data = record s.backend_data { fd = h } }

abbrev pub set_error : ℕ → WinSerial → WinSerial
set_error e s = record s { err_code = e }

-- What `SetCommState`, `CloseHandle` and `GetLastError` give to `win32_serial_close`.
pub record WinCloseAnswer : Type 0 where
  pub revert_ok : Bool
  pub close_ok : Bool
  pub last_error : ℕ

abbrev pub valid : Option ℕ → Bool
valid none = false
valid (some h) = true

-- True for 0, false for -1.
unfoldable pub win32_serial_close : WinCloseAnswer → M WinWorld Bool
win32_serial_close answer = do
  s ← load_port
  if not (s.is_open || valid s.backend_data.fd)
      then pure true
      else if not answer.revert_ok
      then (do change_port (set_error answer.last_error); pure false)
      else (do
        modify (log (set_state s.backend_data.fd s.backend_data.old_dcb))
        if not answer.close_ok
            then (do change_port (set_error answer.last_error); pure false)
            else (do
              modify (log (closed_handle s.backend_data.fd))
              change_port (λ s. record (set_handle none s) { is_open = false })
              pure true))

-- What the calls in `win32_serial_open` give: the handle, `none` for INVALID_HANDLE_VALUE; whether
-- `GetCommState` succeeds and what it leaves in `old_dcb`; whether `CloseHandle` succeeds if it does
-- not; whether `SetCommState` succeeds; `GetLastError` where it is read; and what happens in
-- `win32_serial_close` at the end.
pub record WinOpenAnswer : Type 0 where
  pub handle : Option ℕ
  pub got_state : Bool
  pub old : Dcb
  pub closed_ok : Bool
  pub state_ok : Bool
  pub last_error : ℕ
  pub at_close : WinCloseAnswer

-- The way out when `GetCommState` fails.
unfoldable pub give_back : ℕ → WinOpenAnswer → M WinWorld Bool
give_back h answer = do
  if answer.closed_ok then modify (log (closed_handle (some h))) else skip
  change_port (λ s. set_error answer.last_error (set_handle none s))
  pure false

-- From `SetCommState` on, with the new configuration.
unfoldable pub set_up_port : ℕ → Dcb → WinOpenAnswer → M WinWorld Bool
set_up_port h dcb answer =
    if not answer.state_ok
    then (do
      change_port (set_error answer.last_error)
      ignore (win32_serial_close answer.at_close)
      pure false)
    else (do
      modify (log (set_state (some h) dcb))
      change_port (λ s. record s { is_open = true })
      pure true)

-- True for 0, false for -1.
unfoldable pub win32_serial_open : WinOpenAnswer → M WinWorld Bool
win32_serial_open answer = do
  s ← load_port
  if s.is_open then pure true else (do
    change_port (set_handle answer.handle)
    elim answer.handle [
      | none ↦ do change_port (set_error answer.last_error); pure false
      | some h ↦ do
        modify (log (created h s.backend_data.device))
        change_port
            (λ s. record s { backend_data = record s.backend_data { old_dcb = answer.old } })
        if not answer.got_state
            then give_back h answer
            else set_up_port h (configure s.backend_data answer.old) answer
    ])

-- An `int` as a `DWORD`.
abbrev pub dword : ℤ → ℕ
dword (pos n) = n % 2 ^ 32
dword (negsuc n) = (2 ^ 32 - suc n % 2 ^ 32) % 2 ^ 32

-- Whether a call of the system succeeds, and what `GetLastError` gives if not.
pub record WinAnswer : Type 0 where
  pub succeeds : Bool
  pub last_error : ℕ

unfoldable pub timeouts_of : ℤ → CommTimeouts
timeouts_of mtimeout = record {
  read_interval_timeout = dword mtimeout;
  read_total_timeout_multiplier = 1;
  read_total_timeout_constant = dword mtimeout;
  write_total_timeout_multiplier = 1;
  write_total_timeout_constant = dword mtimeout;
}

-- True for 0, false for -1.
unfoldable pub win32_serial_set_timeout : ℤ → WinAnswer → M WinWorld Bool
win32_serial_set_timeout mtimeout answer = do
  s ← load_port
  if not answer.succeeds
      then (do change_port (set_error answer.last_error); pure false)
      else (do modify (log (set_timeouts s.backend_data.fd (timeouts_of mtimeout))); pure true)

-- `incoming` is what `ReadFile` has for the buffer, `none` for a failure; the bytes read are
-- returned, `none` for -1.
unfoldable pub win32_serial_read :
    ℕ → ℤ → WinAnswer → Option (List ℕ) → (last_error : ℕ) → M WinWorld (Option (List ℕ))
win32_serial_read len mtimeout timeout_answer incoming last_error = do
  s ← load_port
  if not s.is_open then pure none else (do
    if not_negative mtimeout
        then ignore (win32_serial_set_timeout mtimeout timeout_answer)
        else skip
    elim incoming [
      | none ↦ do change_port (set_error last_error); pure none
      | some bytes ↦ do
        modify (log (received s.backend_data.fd (take len bytes)))
        pure (some (take len bytes))
    ])

-- `answer` is the number of bytes that `WriteFile` takes, `none` for a failure. The time that the
-- caller allows is not used.
unfoldable pub win32_serial_write :
    List ℕ → ℤ → (answer : Option ℕ) → (last_error : ℕ) → M WinWorld (Option ℕ)
win32_serial_write buf mtimeout answer last_error = do
  s ← load_port
  if not s.is_open then pure none else elim answer [
    | none ↦ do change_port (set_error last_error); pure none
    | some n ↦ do
      modify (log (wrote s.backend_data.fd (take n buf)))
      pure (some (min n (length buf)))
  ]

unfoldable pub win32_serial_clean_buffer : WinAnswer → M WinWorld Bool
win32_serial_clean_buffer answer = do
  s ← load_port
  if not answer.succeeds
      then (do change_port (set_error answer.last_error); pure false)
      else (do modify (log (purged s.backend_data.fd)); pure true)

-- The result of `win32_serial_close` is not used, and the port is freed.
unfoldable pub win32_serial_destory : WinCloseAnswer → M WinWorld (Unit {0})
win32_serial_destory answer = do
  ignore (win32_serial_close answer)
  modify (λ w. record w { ctx = none })

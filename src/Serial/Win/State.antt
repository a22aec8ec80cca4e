-- ===== src/Serial/Win/State.antt =====
-- The data of src/serial/serial_port.h on Windows, and what its backend does outside the program.
use libzio.Base.{ℕ, Bool, Option, none, some, List, [], ◌∷◌}
use libzio.Effects.{fault, ok, M, ◌>>=◌, modify}
use libzio.Links.{erase}

-- The fields of `DCB` that the code writes. `others` is all that it leaves as it is, `DCBlength` is a
-- constant.
pub record Dcb : Type 0 where
  pub baud_rate : ℕ
  pub byte_size : ℕ
  pub stop_bits : ℕ
  pub parity : ℕ
  pub f_parity : Bool
  pub f_tx_continue_on_xoff : Bool
  pub f_out_x : Bool
  pub f_in_x : Bool
  pub f_binary : Bool
  pub f_abort_on_error : Bool
  pub others : ℕ

-- `serial_rtu_t` on Windows. `fd` is `none` for INVALID_HANDLE_VALUE, a device name is known by its
-- number, and a parity is the code of a character.
pub record WinRtu : Type 0 where
  pub device : ℕ
  pub baud : ℕ
  pub data_bit : ℕ
  pub stop_bit : ℕ
  pub parity : ℕ
  pub fd : Option ℕ
  pub old_dcb : Dcb

-- `struct _serial`, with the block that `backend_data` points to.
pub record WinSerial : Type 0 where
  pub debug : Bool
  pub is_open : Bool
  pub err_code : ℕ
  pub share_mode : ℕ
  pub backend_data : WinRtu

-- `COMMTIMEOUTS`
pub record CommTimeouts : Type 0 where
  pub read_interval_timeout : ℕ
  pub read_total_timeout_multiplier : ℕ
  pub read_total_timeout_constant : ℕ
  pub write_total_timeout_multiplier : ℕ
  pub write_total_timeout_constant : ℕ

-- The calls of the system that succeed.
pub data WinEvent : Type 0 where
  created : (handle device : ℕ) → WinEvent
  closed_handle : Option ℕ → WinEvent
  set_state : Option ℕ → Dcb → WinEvent
  set_timeouts : Option ℕ → CommTimeouts → WinEvent
  received : Option ℕ → List ℕ → WinEvent
  wrote : Option ℕ → List ℕ → WinEvent
  purged : Option ℕ → WinEvent

-- The one port that the calls are about, `none` when it is freed, and the events so far, newest
-- first.
pub record WinWorld : Type 0 where
  pub ctx : Option WinSerial
  pub win_events : List WinEvent

-- The handles that are created and not closed.
unfoldable pub open_handles : List WinEvent → List ℕ
open_handles [] = []
open_handles (created h device ∷ es) = h ∷ open_handles es
open_handles (closed_handle none ∷ es) = open_handles es
open_handles (closed_handle (some h) ∷ es) = erase h (open_handles es)
open_handles (set_state h dcb ∷ es) = open_handles es
open_handles (set_timeouts h t ∷ es) = open_handles es
open_handles (received h bytes ∷ es) = open_handles es
open_handles (wrote h bytes ∷ es) = open_handles es
open_handles (purged h ∷ es) = open_handles es

-- `*ctx`
unfoldable pub load_port : M WinWorld WinSerial
load_port w = elim w.ctx [ none ↦ fault | some s ↦ ok (s, w) ]

unfoldable pub change_port : (WinSerial → WinSerial) → M WinWorld (Unit {0})
unfolding load_port
change_port f = do s ← load_port; modify (λ w. record w { ctx = some (f s) })

abbrev pub log : WinEvent → WinWorld → WinWorld
log e w = record w { win_events = e ∷ w.win_events }

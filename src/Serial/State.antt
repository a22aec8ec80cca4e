-- ===== src/Serial/State.antt =====
-- The data of src/serial/serial_port.h, and the static variables of src/serial/serial_port.c.
use libzio.Base.{ℕ, Bool, Option, none, some, List, ◌∷◌, ◌==◌, if◌then◌else◌}
use libzio.Effects.{ok, fault, M, ◌>>=◌, modify}

-- The address of a `serial_t`, or of a `serial_manger_t`.
abbrev pub Ptr : Type 0
Ptr = ℕ

-- The fields of `struct termios` that the code writes: the two speeds, CSIZE as a number of bits, a
-- truth value for each flag, and two control characters.
pub record Termios : Type 0 where
  pub ispeed : ℕ
  pub ospeed : ℕ
  pub csize : ℕ
  pub cread : Bool
  pub clocal : Bool
  pub cstopb : Bool
  pub parenb : Bool
  pub parodd : Bool
  pub icanon : Bool
  pub echo : Bool
  pub echoe : Bool
  pub isig : Bool
  pub inpck : Bool
  pub ixon : Bool
  pub ixoff : Bool
  pub ixany : Bool
  pub opost : Bool
  pub vmin : ℕ
  pub vtime : ℕ

-- `serial_rtu_t`. A device name is known by its number, `s` is `none` for -1, and a parity is the
-- code of a character.
pub record SerialRtu : Type 0 where
  pub device : ℕ
  pub baud : ℕ
  pub data_bit : ℕ
  pub stop_bit : ℕ
  pub parity : ℕ
  pub old_tios : Termios
  pub s : Option ℕ

-- `struct _serial`, with the block that `backend_data` points to. `backend` is an argument of the
-- functions that use it.
pub record Serial : Type 0 where
  pub debug : Bool
  pub is_open : Bool
  pub err_code : ℕ
  pub share_mode : ℕ
  pub backend_data : SerialRtu

-- `serial_manger_t`; `mt` says whether the mutex is held. The field `node` is the manager's place in
-- the list `serial_mangers`.
pub record SerialManger : Type 0 where
  pub t : Ptr
  pub refcount : ℕ
  pub opencount : ℕ
  pub mt : Bool

-- What a call does outside the program's memory.
pub data LineEvent : Type 0 where
  sys_close : ℕ → LineEvent
  set_attributes : ℕ → Termios → LineEvent
  flush : Option ℕ → LineEvent
  sent : ℕ → List ℕ → LineEvent

-- The ports and managers that are allocated, the list, the mutex `g_mangers`, and the events so far,
-- newest first.
pub record SerialWorld : Type 0 where
  pub ports : Ptr → Option Serial
  pub managers : Ptr → Option SerialManger
  pub serial_mangers : List Ptr
  pub g_mangers : Bool
  pub line_events : List LineEvent

-- A memory with one place changed.
abbrev pub set_at : {A : Type 0} → (ℕ → A) → ℕ → A → ℕ → A
set_at f p v q = if p == q then v else f q

-- `*ctx`, undefined where no port is allocated.
abbrev pub present : {A S : Type 0} → Option A → M S A
present none w = fault
present (some a) w = ok (a, w)

unfoldable pub load_ctx : Ptr → M SerialWorld Serial
load_ctx p w = present (w.ports p) w

unfoldable pub change_ctx : Ptr → (Serial → Serial) → M SerialWorld (Unit {0})
unfolding load_ctx
change_ctx p f = do s ← load_ctx p; modify (λ w. record w { ports = set_at w.ports p (some (f s)) })

-- `*sm`
unfoldable pub load_sm : Ptr → M SerialWorld SerialManger
load_sm m w = present (w.managers m) w

unfoldable pub change_sm : Ptr → (SerialManger → SerialManger) → M SerialWorld (Unit {0})
unfolding load_sm
change_sm m f = do
  sm ← load_sm m
  modify (λ w. record w { managers = set_at w.managers m (some (f sm)) })

abbrev pub trace : LineEvent → SerialWorld → SerialWorld
trace e w = record w { line_events = e ∷ w.line_events }

-- ===== src/Serial/Unix.antt =====
-- src/serial/serial_unix.c: the backend over `termios`. What the operating system answers is an
-- argument.
use libzio.Base.{
  ℕ, zero, suc, ◌-◌, Bool, true, false, not, ◌&&◌, ◌||◌, Option, none, some, List, [], ◌∷◌, ◌++◌,
  ltb, leb, ◌==◌, if◌then◌else◌, length, take, min,
}
use libzio.Base.Int.{ℤ, pos, negsuc}
use libzio.Effects.{stuck, M, ◌>>=◌, ◌>>◌, pure, modify, defined}
use libzio.Serial.State.{
  Ptr, Termios, SerialRtu, Serial, SerialWorld, sys_close, set_attributes, flush, sent, load_ctx,
  change_ctx, set_at, trace,
}

-- The codes of 'N' and 'E'.
abbrev pub parity_none : ℕ
parity_none = 78

abbrev pub parity_even : ℕ
parity_even = 69

abbrev pub parity_odd : ℕ
parity_odd = 79

-- The `switch` on the baud rate; a constant `B110` is its number.
abbrev pub speeds : List ℕ
speeds = 110 ∷ 300 ∷ 600 ∷ 1200 ∷ 2400 ∷ 4800 ∷ 9600 ∷ 19200 ∷ 38400 ∷ 57600 ∷ 115200 ∷ []

abbrev pub member : ℕ → List ℕ → Bool
member x [] = false
member x (y ∷ l) = (x == y) || member x l

unfoldable pub speed_of : ℕ → ℕ
speed_of baud = if member baud speeds then baud else 9600

-- The `switch` on the data bits.
unfoldable pub csize_of : ℕ → ℕ
csize_of data_bit =
    if data_bit == 5 then 5 else if data_bit == 6 then 6 else if data_bit == 7 then 7 else 8

-- The `struct termios` that `unix_serial_open` fills in, from zero on.
unfoldable pub settings : SerialRtu → Termios
settings r = record {
  ispeed = speed_of r.baud;
  ospeed = speed_of r.baud;
  csize = csize_of r.data_bit;
  cread = true;
  clocal = true;
  cstopb = not (r.stop_bit == 1);
  parenb = not (r.parity == parity_none);
  parodd = not (r.parity == parity_none) && not (r.parity == parity_even);
  icanon = false;
  echo = false;
  echoe = false;
  isig = false;
  inpck = not (r.parity == parity_none);
  ixon = false;
  ixoff = false;
  ixany = false;
  opost = false;
  vmin = 0;
  vtime = 0;
}

-- What `open`, `tcgetattr`, `cfsetispeed` with `cfsetospeed`, `tcsetattr` and `errno` give to
-- `unix_serial_open`.
pub record OpenAnswer : Type 0 where
  pub new_fd : Option ℕ
  pub old : Termios
  pub speed_ok : Bool
  pub attributes_ok : Bool
  pub errno : ℕ

abbrev pub set_fd : Option ℕ → Serial → Serial
set_fd fd s = record s { backend_data = record s.backend_data { s = fd } }

abbrev pub set_errno : ℕ → Serial → Serial
set_errno e s = record s { err_code = e }

-- The way out of `unix_serial_open` when a setting fails.
unfoldable pub give_up : Ptr → ℕ → ℕ → M SerialWorld Bool
give_up p fd errno = do
  change_ctx p (set_errno errno)
  modify (trace (sys_close fd))
  change_ctx p (set_fd none)
  pure false

-- True for 0, false for -1.
unfoldable pub unix_serial_open : Ptr → OpenAnswer → M SerialWorld Bool
unix_serial_open p answer = do
  s ← load_ctx p
  if s.is_open then pure true else elim answer.new_fd [
    | none ↦ do change_ctx p (set_fd none); change_ctx p (set_errno answer.errno); pure false
    | some fd ↦ do
      change_ctx p (λ s. record s {
        backend_data = record s.backend_data { s = some fd; old_tios = answer.old };
      })
      if not answer.speed_ok
          then give_up p fd answer.errno
          else if not answer.attributes_ok
          then give_up p fd answer.errno
          else (do
            modify (trace (set_attributes fd (settings s.backend_data)))
            change_ctx p (λ s. record s { is_open = true })
            pure true)
  ]

-- What `select` and `read` give in one round of the loop of `unix_serial_read`: whether `select`
-- runs into its timeout, and the bytes that wait, `none` for a failure.
pub record ReadRound : Type 0 where
  pub timed_out : Bool
  pub incoming : Option (List ℕ)

-- `unix_serial_set_timeout`. True for 0, false for -1.
unfoldable pub set_timeout : ℤ → Bool → Bool
set_timeout (negsuc n) timed_out = true
set_timeout (pos zero) timed_out = true
set_timeout (pos (suc n)) timed_out = not timed_out

-- `mtimeout >= 0`
abbrev pub not_negative : ℤ → Bool
not_negative (pos n) = true
not_negative (negsuc n) = false

-- `FD_SET` is called, which is undefined from descriptor 1024 on.
abbrev pub selects : ℤ → ℕ → Bool
selects (pos (suc n)) (suc len) = true
selects _ _ = false

-- How the loop of `unix_serial_read` ends, with the bytes read so far: it leaves the loop, or
-- returns from inside.
pub data ReadEnd : Type 0 where
  left : List ℕ → ReadEnd
  returned : List ℕ → ReadEnd

-- The size of the local array `temp`.
abbrev pub temp_size : ℕ
temp_size = 1024

-- The loop from round `i` on, for at most so many rounds; `none` if it is not through then.
unfoldable pub read_rounds : (ℕ → ReadRound) → ℤ → (fuel i len : ℕ) → List ℕ → Option ReadEnd
unfolding set_timeout
read_rounds rounds mtimeout zero i len buf = if leb len (length buf) then some (left buf) else none
read_rounds rounds mtimeout (suc fuel) i len buf =
    if leb len (length buf)
    then some (left buf)
    else if not_negative mtimeout && not (set_timeout mtimeout (rounds i).timed_out)
    then some (left buf)
    else elim (rounds i).incoming [
      | none ↦ some (returned buf)
      | some [] ↦ some (returned buf)
      | some (b ∷ bytes) ↦
          read_rounds rounds mtimeout fuel (suc i) len
            (buf ++ take (min (len - length buf) temp_size) (b ∷ bytes))
    ]

-- The count that is returned, and the bytes in `buf`.
unfoldable pub unix_serial_read : Ptr → ℕ → ℤ → (ℕ → ReadRound) → ℕ → M SerialWorld (ℤ × List ℕ)
unfolding read_rounds
unix_serial_read p len mtimeout rounds errno = do
  s ← load_ctx p
  if not s.is_open then pure (negsuc 0, []) else elim s.backend_data.s [
    | none ↦ pure (negsuc 0, [])
    | some fd ↦ do
      defined (not (selects mtimeout len) || ltb fd 1024)
      elim (read_rounds rounds mtimeout len 0 len []) [
        | none ↦ (λ w. stuck)
        | some (returned buf) ↦ pure (pos (length buf), buf)
        | some (left buf) ↦
            if length buf == 0
            then (do change_ctx p (set_errno errno); pure (negsuc 0, []))
            else pure (pos (length buf), buf)
      ]
  ]

-- `answer` is what `write` returns, `none` for -1.
unfoldable pub unix_serial_write : Ptr → List ℕ → Option ℕ → ℕ → M SerialWorld (Option ℕ)
unix_serial_write p buf answer errno = do
  s ← load_ctx p
  if not s.is_open then pure none else elim s.backend_data.s [
    | none ↦ do change_ctx p (set_errno errno); pure none
    | some fd ↦ elim answer [
      | none ↦ do change_ctx p (set_errno errno); pure none
      | some n ↦ do modify (trace (sent fd (take n buf))); pure (some (min n (length buf)))
    ]
  ]

unfoldable pub unix_serial_clean_buffer : Ptr → M SerialWorld Bool
unix_serial_clean_buffer p = do s ← load_ctx p; modify (trace (flush s.backend_data.s)); pure true

-- What `tcsetattr` and `errno` give to `unix_serial_close`.
pub record CloseAnswer : Type 0 where
  pub attributes_ok : Bool
  pub errno : ℕ

unfoldable pub unix_serial_close : Ptr → CloseAnswer → M SerialWorld Bool
unix_serial_close p answer = do
  s ← load_ctx p
  elim s.backend_data.s [
    | none ↦ pure false
    | some fd ↦
        if not answer.attributes_ok
        then (do change_ctx p (set_errno answer.errno); pure false)
        else (do
          modify (trace (set_attributes fd s.backend_data.old_tios))
          modify (trace (sys_close fd))
          change_ctx p (λ s. record (set_fd none s) { is_open = false })
          pure true)
  ]

-- The result of `unix_serial_close` is not used, and the port is freed.
unfoldable pub unix_serial_destory : Ptr → CloseAnswer → M SerialWorld (Unit {0})
unix_serial_destory p answer = do
  closed ← unix_serial_close p answer
  modify (λ w. record w { ports = set_at w.ports p none })

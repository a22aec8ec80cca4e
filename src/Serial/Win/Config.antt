-- ===== src/Serial/Win/Config.antt =====
-- What the two backends make of the parameters of a port: src/serial/serial_unix.c in a `termios`,
-- src/serial/serial_win.c in a `DCB`.
use libzio.Base.{arith, ℕ, ◌≡◌, refl, Bool, true, false, not, ◌&&◌, ◌||◌, ◌==◌, if◌then◌else◌}
use libzio.Serial.State.{Termios, SerialRtu}
use libzio.Serial.Unix.{settings, speed_of, csize_of, parity_none, parity_even}
use libzio.Serial.Win.State.{Dcb, WinRtu}
use libzio.Serial.Win.Calls.{
  cbr_of, byte_size_of, configure, two_stop_bits, odd_parity, even_parity, no_parity,
}

-- A line, however the system writes it down.
pub data Parity : Type 0 where
  unchecked odd even unknown : Parity

pub record Line : Type 0 where
  pub speed_in : ℕ
  pub speed_out : ℕ
  pub bits : ℕ
  pub two_stops : Bool
  pub parity : Parity
  pub checks_input : Bool
  pub software_flow : Bool

-- PARENB and PARODD
abbrev pub parity_of_flags : (parenb parodd : Bool) → Parity
parity_of_flags false parodd = unchecked
parity_of_flags true true = odd
parity_of_flags true false = even

-- The `Parity` of a DCB.
abbrev pub parity_of_code : ℕ → Parity
parity_of_code c =
    if c == no_parity
    then unchecked
    else if c == odd_parity
    then odd
    else if c == even_parity
    then even
    else unknown

abbrev pub line_of_termios : Termios → Line
line_of_termios t = record {
  speed_in = t.ispeed;
  speed_out = t.ospeed;
  bits = t.csize;
  two_stops = t.cstopb;
  parity = parity_of_flags t.parenb t.parodd;
  checks_input = t.inpck;
  software_flow = t.ixon || (t.ixoff || t.ixany);
}

abbrev pub line_of_dcb : Dcb → Line
line_of_dcb d = record {
  speed_in = d.baud_rate;
  speed_out = d.baud_rate;
  bits = d.byte_size;
  two_stops = d.stop_bits == two_stop_bits;
  parity = parity_of_code d.parity;
  checks_input = d.f_parity;
  software_flow = d.f_out_x || d.f_in_x;
}

same_speed : (baud : ℕ) → cbr_of baud ≡ speed_of baud
unfolding cbr_of speed_of
same_speed baud = ground arith

same_stops : (stop : Bool) → ((if stop then 0 else 2) == 2) ≡ not stop
same_stops true = refl
same_stops false = refl

same_parity :
    (is_n is_e : Bool)
    → parity_of_code (if is_n then no_parity else if is_e then even_parity else odd_parity)
      ≡ parity_of_flags (not is_n) (not is_n && not is_e)
same_parity true is_e = refl
same_parity false true = refl
same_parity false false = refl

-- The two backends set a port with the same parameters to the same line: speed, data bits, stop
-- bits, parity, the check of incoming parity, and no software flow control; whatever the `DCB` was
-- before.
pub configure-settings :
    (r : WinRtu) (q : SerialRtu) (old : Dcb)
    → r.baud ≡ q.baud
    → r.data_bit ≡ q.data_bit
    → r.stop_bit ≡ q.stop_bit
    → r.parity ≡ q.parity
    → line_of_dcb (configure r old) ≡ line_of_termios (settings q)
unfolding configure settings byte_size_of csize_of
configure-settings r q old bauds bits stops par =
    rw
      (
        bauds,
        bits,
        stops,
        par,
        same_speed q.baud,
        same_stops (q.stop_bit == 1),
        same_parity (q.parity == parity_none) (q.parity == parity_even),
      )
      refl

-- ===== src/Serial/Sound/Tests.antt =====
-- The theorems about the registry of src/serial/serial_port.c at concrete calls.
use libzio.Base.{
  ℕ, ◌≡◌, refl, ap, sym, ◌∙◌, true, false, Option, none, some, List, [], ◌∷◌, if◌then◌else◌,
}
use libzio.Effects.{ok}
use libzio.Effects.Keeps.{After, Returns}
use libzio.Links.{kernel_links}
use libzio.Serial.Port.{NewAnswer, serial_new, share}
use libzio.Serial.Sharing.{free_sm, changed_sm}
use libzio.Serial.Sound.Answers.{new-known, new-created}
use libzio.Serial.Sound.Backend.{Behaves}
use libzio.Serial.Sound.Beside.{Fresh}
use libzio.Serial.Sound.Entries.{Sound}
use libzio.Serial.Sound.Linux.{UnixAnswers, linux_serial_backend, linux_serial_backend-Behaves}
use libzio.Serial.Sound.Making.{half_made, made_port}
use libzio.Serial.Sound.Scripts.{
  SerialCall, to_new, to_open, to_write, to_close, to_destory, serial_start, serial_script,
  serial_script-Sound,
}
use libzio.Serial.State.{Termios, SerialRtu, Serial, SerialWorld, set_at}

abbrev plain_tios : Termios
plain_tios = record {
  ispeed = 0;
  ospeed = 0;
  csize = 5;
  cread = false;
  clocal = false;
  cstopb = false;
  parenb = false;
  parodd = false;
  icanon = false;
  echo = false;
  echoe = false;
  isig = false;
  inpck = false;
  ixon = false;
  ixoff = false;
  ixany = false;
  opost = false;
  vmin = 0;
  vtime = 0;
}

-- Port 3 at 9600 baud, eight bits, no parity, one stop bit.
abbrev asked : SerialRtu
asked = record {
  device = 3;
  baud = 9600;
  data_bit = 8;
  stop_bit = 1;
  parity = 78;
  old_tios = plain_tios;
  s = none;
}

abbrev junk_port : Serial
junk_port = record {
  debug = true;
  is_open = true;
  err_code = 9;
  share_mode = 0;
  backend_data = record asked { device = 0; s = some 0 };
}

-- A `malloc` over a few addresses: the first that is not in use.
abbrev unused : {A : Type 0} → (ℕ → Option A) → List ℕ → Option ℕ
unused f [] = none
unused f (p ∷ l) = elim (f p) [ none ↦ some p | some _ ↦ unused f l ]

unused_lem : {A : Type 0} (f : ℕ → Option A) (l : List ℕ) (q : ℕ) → unused f l ≡ some q → f q ≡ none
unused_lem f [] q e = absurd cc
unused_lem f (p ∷ l) q e = by_place (f p) refl e (unused_lem f l q)
  where
    by_place :
        (o : Option _)
        → f p ≡ o
        → (elim o [ none ↦ some p | some _ ↦ unused f l ]) ≡ some q
        → (unused f l ≡ some q → f q ≡ none)
        → f q ≡ none
    by_place none here g later_ = ap f (sym (ap (λ o. elim o [ none ↦ p | some x ↦ x ]) g)) ∙ here
    by_place (some a) here g later_ = later_ g

abbrev small_malloc : SerialWorld → NewAnswer
small_malloc w = record {
  ctx = unused w.ports (5 ∷ 7 ∷ []);
  junk = junk_port;
  sm = unused w.managers (6 ∷ 8 ∷ []);
}

small_malloc-Fresh : (w : SerialWorld) → Fresh (small_malloc w) w
small_malloc-Fresh w = record {
  new_ctx = unused_lem w.ports (5 ∷ 7 ∷ []);
  new_sm = unused_lem w.managers (6 ∷ 8 ∷ []);
}

abbrev willing : UnixAnswers
willing = record {
  to_open = λ p. record {
    new_fd = some 9;
    old = plain_tios;
    speed_ok = true;
    attributes_ok = true;
    errno = 0;
  };
  to_read = λ p n. record { timed_out = false; incoming = none };
  to_write = λ p. some 2;
  to_close = λ p. record { attributes_ok = true; errno = 0 };
  errno = 5;
}

-- Two users share the port.
abbrev two_users : List (UnixAnswers × SerialCall)
two_users =
    (willing, to_new asked 1)
    ∷ (willing, to_new asked 1)
    ∷ (willing, to_open 5)
    ∷ (willing, to_write 5 (1 ∷ 2 ∷ 3 ∷ []))
    ∷ (willing, to_close 5)
    ∷ (willing, to_destory 5)
    ∷ (willing, to_destory 5)
    ∷ []

serial_script-Sound_example :
    After (λ _. Sound) (serial_script kernel_links small_malloc two_users serial_start)
serial_script-Sound_example =
    serial_script-Sound kernel_links small_malloc small_malloc-Fresh two_users

linux_serial_backend-Behaves_example : Behaves (linux_serial_backend willing)
linux_serial_backend-Behaves_example = linux_serial_backend-Behaves willing

-- One user has the port.
abbrev one_user : SerialWorld
one_user = record serial_start {
  ports = set_at (λ _. none) 5 (some (made_port 1 asked (half_made asked junk_port)));
  managers = set_at (λ _. none) 6 (some (free_sm 5 1 0));
  serial_mangers = 6 ∷ [];
}

one_user-Sound : Sound one_user
one_user-Sound = (
  refl,
  (
    record {
      once = refl;
      manger = free_sm 5 1 0;
      device = 3;
      at = refl;
      free = refl;
      port = refl;
      alone = refl;
    },
    tt,
  ),
)

new-known_example :
    let v = changed_sm 6 share (free_sm 5 1 0) (record one_user { g_mangers = true }) in
    (v.managers 6 ≡ some (free_sm 5 2 0))
    × (serial_new kernel_links
          (linux_serial_backend willing)
          asked
          1
          (small_malloc one_user)
          one_user
        ≡ ok (
            if true
            then (some 5, record v { g_mangers = false })
            else (none, record one_user { g_mangers = false })))
new-known_example =
    new-known kernel_links (linux_serial_backend willing) asked 1 (small_malloc one_user) one_user
      one_user-Sound 6 5 1 0 {s = made_port 1 asked (half_made asked junk_port)} refl refl refl

new-created_example :
    Returns
      (λ made v.
        (made ≡ some 5)
        × (v.ports 5 ≡ some (made_port 1 asked (half_made asked junk_port)))
        × (v.managers 6 ≡ some (free_sm 5 1 0))
        × (v.serial_mangers ≡ 6 ∷ [])
        × (v.g_mangers ≡ false)
        × (v.line_events ≡ []))
      (serial_new kernel_links
        (linux_serial_backend willing)
        asked
        1
        (small_malloc serial_start)
        serial_start)
new-created_example =
    new-created kernel_links (linux_serial_backend willing) asked 1 (small_malloc serial_start)
      serial_start (refl, tt) 5 6 refl refl refl refl refl

-- ===== src/Serial/Port.antt =====
-- src/serial/serial_port.c: the ports that are shared, and the calls that go through them. The list
-- `serial_mangers` is a parameter, and so are the answers of `malloc`.
use libzio.Base.{
  ℕ, zero, suc, ◌-◌, Bool, true, false, not, ◌||◌, Option, none, some, List, [], ltb, ◌==◌,
  if◌then◌else◌, length,
}
use libzio.Base.Int.{ℤ, negsuc}
use libzio.Effects.{fault, stuck, M, ◌>>=◌, ◌>>◌, pure, get, modify, skip}
use libzio.Links.{Links, Cursor, entry, head, poison}
use libzio.Serial.State.{
  Ptr, SerialRtu, Serial, SerialManger, SerialWorld, load_ctx, change_ctx, load_sm, change_sm,
  set_at,
}
use libzio.Serial.Unix.{parity_none, parity_even, parity_odd}

-- `serial_backend_t`, with the answers of the operating system in it. True is 0 and false -1.
pub record SerialBackend : Type 0 where
  pub open_port : Ptr → M SerialWorld Bool
  pub read_port : Ptr → ℕ → ℤ → M SerialWorld (ℤ × List ℕ)
  pub write_port : Ptr → List ℕ → M SerialWorld (Option ℕ)
  pub clean : Ptr → M SerialWorld Bool
  pub close_port : Ptr → M SerialWorld Bool
  pub destory : Ptr → M SerialWorld (Unit {0})

-- `pthread_mutex_lock` and `pthread_mutex_unlock` on the two kinds of mutex. In a run of one thread
-- nobody releases a mutex that is held.
unfoldable pub lock_all : M SerialWorld (Unit {0})
lock_all w = if w.g_mangers then stuck else modify (λ w. record w { g_mangers = true }) w

unfoldable pub unlock_all : M SerialWorld (Unit {0})
unlock_all = modify (λ w. record w { g_mangers = false })

unfoldable pub lock_sm : Ptr → M SerialWorld (Unit {0})
lock_sm m = do
  sm ← load_sm m
  if sm.mt then (λ w. stuck) else change_sm m (λ sm. record sm { mt = true })

unfoldable pub unlock_sm : Ptr → M SerialWorld (Unit {0})
unlock_sm m = change_sm m (λ sm. record sm { mt = false })

-- A change of a manager with its mutex held.
unfoldable pub change_locked : Ptr → (SerialManger → SerialManger) → M SerialWorld (Unit {0})
change_locked m f = do lock_sm m; change_sm m f; unlock_sm m

-- A new port with the fields that `serial_new` sets last.
abbrev pub closed_port : ℕ → SerialRtu → Serial
closed_port share_mode rtu = record {
  debug = false;
  is_open = false;
  err_code = 0;
  share_mode = share_mode;
  backend_data = record rtu { s = none };
}

-- Whether a port that is shared has other parameters than those asked for.
abbrev pub diverse : SerialRtu → SerialRtu → Bool
diverse r q =
    not (r.baud == q.baud)
    || (not (r.parity == q.parity)
        || (not (r.data_bit == q.data_bit) || not (r.stop_bit == q.stop_bit)))

abbrev pub share : SerialManger → SerialManger
share sm = record sm { refcount = suc sm.refcount }

-- What `malloc` gives to `serial_new` and `add_serial`: two addresses, and what the fresh block of
-- the port holds. The code does not test for NULL, and the two blocks of a port are one here.
pub record NewAnswer : Type 0 where
  pub ctx : Option Ptr
  pub junk : Serial
  pub sm : Option Ptr

module _ (links : Links) where
  open links use {list_add, list_del, list_first, list_next}

  -- The loop of `find_serial` from a cursor on, for at most so many rounds.
  unfoldable pub find_from : (rounds device : ℕ) → Cursor → M SerialWorld (Option Ptr)
  find_from rounds device head = pure none
  find_from rounds device poison = λ w. fault
  find_from zero device (entry m) = λ w. stuck
  find_from (suc rounds) device (entry m) = do
    sm ← load_sm m
    s ← load_ctx sm.t
    w ← get
    if s.backend_data.device == device
        then pure (some m)
        else find_from rounds device (list_next m w.serial_mangers)

  unfoldable pub find_serial : ℕ → M SerialWorld (Option Ptr)
  find_serial device = do
    w ← get
    find_from (length w.serial_mangers) device (list_first w.serial_mangers)

  -- The manager of a port.
  unfoldable pub find_manger : Ptr → M SerialWorld (Option Ptr)
  find_manger ctx = do s ← load_ctx ctx; find_serial s.backend_data.device

  unfoldable pub add_serial : Ptr → Option Ptr → M SerialWorld (Unit {0})
  add_serial serial none = λ w. fault
  add_serial serial (some m) = modify (λ w. record w {
    managers =
        set_at w.managers m (some (record { t = serial; refcount = 1; opencount = 0; mt = false }));
    serial_mangers = list_add m w.serial_mangers;
  })

  -- The branch of `serial_new` for a device that has a manager.
  unfoldable pub reuse : Ptr → SerialRtu → ℕ → M SerialWorld (Option Ptr)
  reuse m rtu share_mode = do
    sm ← load_sm m
    s ← load_ctx sm.t
    if (share_mode == 0) || (s.share_mode == 0)
        then pure none
        else if diverse s.backend_data rtu
        then pure none
        else (do change_locked m share; pure (some sm.t))

  -- The branch for a device that has none. `rtu` holds the parameters.
  unfoldable pub create : SerialBackend → SerialRtu → ℕ → NewAnswer → M SerialWorld (Option Ptr)
  create backend rtu share_mode answer = elim answer.ctx [
    | none ↦ (λ w. fault)
    | some ctx ↦ do
      modify (λ w. record w { ports = set_at w.ports ctx (some answer.junk) })
      change_ctx ctx (λ s. record s {
        backend_data = record s.backend_data { device = rtu.device; baud = rtu.baud };
      })
      if not (
            (rtu.parity == parity_none)
            || ((rtu.parity == parity_even) || (rtu.parity == parity_odd)))
          then (do backend.destory ctx; pure none)
          else (do
            change_ctx ctx (λ s. closed_port share_mode (record s.backend_data {
              parity = rtu.parity;
              data_bit = rtu.data_bit;
              stop_bit = rtu.stop_bit;
            }))
            add_serial ctx answer.sm
            pure (some ctx))
  ]

  -- The address of the port, or NULL.
  unfoldable pub serial_new : SerialBackend → SerialRtu → ℕ → NewAnswer → M SerialWorld (Option Ptr)
  serial_new backend rtu share_mode answer = do
    lock_all
    found ← find_serial rtu.device
    made ← elim found [
      | none ↦ create backend rtu share_mode answer
      | some m ↦ reuse m rtu share_mode
    ]
    unlock_all
    pure made

  -- One more open, counted at the manager and marked at the port.
  unfoldable pub count_open : Ptr → Ptr → M SerialWorld (Unit {0})
  count_open ctx m = do
    lock_sm m
    change_sm m (λ sm. record sm { opencount = suc sm.opencount })
    change_ctx ctx (λ s. record s { is_open = true })
    unlock_sm m

  unfoldable pub serial_open : SerialBackend → Ptr → M SerialWorld Bool
  serial_open backend ctx = do
    found ← find_manger ctx
    elim found [
      | none ↦ pure false
      | some m ↦ do
        sm ← load_sm m
        if ltb 0 sm.opencount then (do count_open ctx m; pure true) else (do
          opened ← backend.open_port ctx
          if opened then (do count_open ctx m; pure true) else pure false)
    ]

  unfoldable pub serial_read : SerialBackend → Ptr → ℕ → ℤ → M SerialWorld (ℤ × List ℕ)
  serial_read backend ctx len mtimeout = do
    found ← find_manger ctx
    elim found [ none ↦ pure (negsuc 0, []) | some m ↦ backend.read_port ctx len mtimeout ]

  unfoldable pub serial_write : SerialBackend → Ptr → List ℕ → M SerialWorld (Option ℕ)
  serial_write backend ctx buf = do
    found ← find_manger ctx
    elim found [ none ↦ pure none | some m ↦ backend.write_port ctx buf ]

  unfoldable pub serial_clean : SerialBackend → Ptr → M SerialWorld Bool
  serial_clean backend ctx = do
    found ← find_manger ctx
    elim found [ none ↦ pure false | some m ↦ backend.clean ctx ]

  unfoldable pub serial_close : SerialBackend → Ptr → M SerialWorld Bool
  serial_close backend ctx = do
    found ← find_manger ctx
    elim found [
      | none ↦ pure false
      | some m ↦ do
        sm ← load_sm m
        (if ltb 0 sm.opencount
            then change_locked m (λ sm. record sm { opencount = sm.opencount - 1 })
            else skip)
        sm ← load_sm m
        if sm.opencount == 0 then backend.close_port ctx else pure true
    ]

  -- A port without a manager is freed, its `backend_data` is not.
  unfoldable pub serial_destory : SerialBackend → Ptr → M SerialWorld (Unit {0})
  serial_destory backend ctx = do
    lock_all
    found ← find_manger ctx
    elim found [
      | none ↦ do modify (λ w. record w { ports = set_at w.ports ctx none }); unlock_all
      | some m ↦ do
        sm ← load_sm m
        (if ltb 0 sm.refcount
            then change_locked m (λ sm. record sm { refcount = sm.refcount - 1 })
            else skip)
        sm ← load_sm m
        (if sm.refcount == 0
            then (do
              modify (λ w. record w { serial_mangers = list_del m w.serial_mangers })
              backend.destory ctx
              modify (λ w. record w { managers = set_at w.managers m none }))
            else skip)
        unlock_all
    ]

  unfoldable pub serial_lock : Ptr → M SerialWorld (Unit {0})
  serial_lock ctx = do found ← find_manger ctx; elim found [ none ↦ skip | some m ↦ lock_sm m ]

  unfoldable pub serial_unlock : Ptr → M SerialWorld (Unit {0})
  serial_unlock ctx = do found ← find_manger ctx; elim found [ none ↦ skip | some m ↦ unlock_sm m ]

unfoldable pub serial_is_open : Ptr → M SerialWorld Bool
serial_is_open ctx = do s ← load_ctx ctx; pure s.is_open

unfoldable pub serial_set_debug : Ptr → Bool → M SerialWorld (Unit {0})
serial_set_debug ctx debug = change_ctx ctx (λ s. record s { debug = debug })

unfoldable pub serial_get_last_error : Ptr → M SerialWorld ℕ
serial_get_last_error ctx = do s ← load_ctx ctx; pure s.err_code

-- ===== src/SocketCli/State.antt =====
-- The data of src/socket/socket_cli.h.
use libzio.Base.{ℕ, Bool, Option, none, some, List, ◌∷◌}
use libzio.Effects.{ok, fault, M, ◌>>=◌, modify}

-- `struct _socket_data`. `socket_id` is `none` for INVALID_SOCKET; `t_id` says whether a thread has
-- been started.
pub record SocketData : Type 0 where
  pub recv_cb : Option ℕ
  pub t_id : Bool
  pub socket_id : Option ℕ
  pub sin_port : ℕ
  pub sin_addr : ℕ

-- `struct _socket_cli`, with the block that `backend_data` points to.
pub record SocketCli : Type 0 where
  pub debug : Bool
  pub is_connect : Bool
  pub err_code : ℕ
  pub async : Bool
  pub con_timeout : ℕ
  pub backend_data : SocketData

-- What a call does outside the program's memory.
pub data CliEvent : Type 0 where
  sys_socket sys_close : ℕ → CliEvent
  transmitted : List ℕ → CliEvent
  join_thread : CliEvent
  notified : ℕ → List ℕ → CliEvent

-- One client, `none` when it has been freed, and the events so far, newest first.
pub record CliWorld : Type 0 where
  pub client : Option SocketCli
  pub cli_events : List CliEvent

unfoldable pub load_cli : M CliWorld SocketCli
load_cli w = elim w.client [ none ↦ fault | some s ↦ ok (s, w) ]

unfoldable pub change_cli : (SocketCli → SocketCli) → M CliWorld (Unit {0})
unfolding load_cli
change_cli f = do s ← load_cli; modify (λ w. record w { client = some (f s) })

abbrev pub log_event : CliEvent → CliWorld → CliWorld
log_event e w = record w { cli_events = e ∷ w.cli_events }

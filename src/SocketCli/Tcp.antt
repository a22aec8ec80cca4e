-- ===== src/SocketCli/Tcp.antt =====
-- src/socket/socket_cli.c: the backend `_tcp_backend`, and the functions that call it. What the
-- operating system answers is an argument.
use libzio.Base.{
  ℕ, zero, suc, ◌-◌, Bool, true, false, not, is_some, ◌&&◌, ◌||◌, Option, none, some, List, [], ◌∷◌,
  ◌++◌, ltb, leb, ◌==◌, if◌then◌else◌, length, take, drop,
}
use libzio.Base.Int.{ℤ, pos, negsuc}
use libzio.Effects.{fault, stuck, M, ◌>>=◌, ◌>>◌, pure, modify, skip, defined}
use libzio.SocketCli.State.{
  SocketCli, CliWorld, sys_socket, sys_close, transmitted, join_thread, notified, load_cli,
  change_cli, log_event,
}

-- What `select`, `recv` and `errno` give in one round: whether `select` runs into its timeout, and
-- the bytes that wait, none of them when the peer has closed, and `none` for -1.
pub record RecvRound : Type 0 where
  pub timed_out : Bool
  pub incoming : Option (List ℕ)
  pub errno : ℕ

abbrev pub set_error : ℕ → SocketCli → SocketCli
set_error e s = record s { err_code = e }

abbrev pub set_id : Option ℕ → SocketCli → SocketCli
set_id id s = record s { backend_data = record s.backend_data { socket_id = id } }

-- `FD_SET` is undefined at -1, and from descriptor 1024 on.
abbrev pub in_set : Option ℕ → Bool
in_set none = false
in_set (some id) = ltb id 1024

-- `__select_out`. False for -1.
unfoldable pub select_out : ℕ → RecvRound → M CliWorld Bool
select_out timeout answer = if timeout == 0 then pure true else (do
  s ← load_cli
  defined (in_set s.backend_data.socket_id)
  if answer.timed_out then (do change_cli (set_error answer.errno); pure false) else pure true)

-- What `socket`, `connect` and `errno` give to `__connect_tcp`.
pub record DialAnswer : Type 0 where
  pub new_id : Option ℕ
  pub connected : Bool
  pub errno : ℕ

-- `__connect_tcp`. True for 0, false for -1.
unfoldable pub connect_tcp : DialAnswer → M CliWorld Bool
connect_tcp answer = do
  s ← load_cli
  if s.is_connect then pure false else (do
    change_cli (set_id answer.new_id)
    elim answer.new_id [
      | none ↦ do change_cli (set_error answer.errno); pure false
      | some id ↦ do
        modify (log_event (sys_socket id))
        if not answer.connected
            then (do change_cli (set_error answer.errno); pure false)
            else (do change_cli (λ s. record s { is_connect = true }); pure true)
    ])

-- `__read_tcp`: the count that is returned, and the bytes in `buf`.
unfoldable pub read_tcp : ℕ → ℕ → RecvRound → M CliWorld (ℤ × List ℕ)
read_tcp len timeout answer = do
  s ← load_cli
  if not s.is_connect || s.async then pure (negsuc 0, []) else (do
    ready ← select_out timeout answer
    if not ready then pure (negsuc 0, []) else elim answer.incoming [
      | none ↦ do change_cli (set_error answer.errno); pure (negsuc 0, [])
      | some bytes ↦ pure (pos (length (take len bytes)), take len bytes)
    ])

-- The loop of `__read_tcp_all` from round `i` on, for at most so many rounds, when `buf` has been
-- read.
unfoldable pub read_all_rounds :
    (rounds : ℕ → RecvRound) (fuel i len timeout : ℕ) → List ℕ → M CliWorld (List ℕ)
read_all_rounds rounds zero i len timeout buf =
    if leb len (length buf) then pure buf else λ w. stuck
read_all_rounds rounds (suc fuel) i len timeout buf = if leb len (length buf) then pure buf else (do
  ready ← select_out timeout (rounds i)
  elim ready [
    | false ↦ pure buf
    | true ↦ elim (rounds i).incoming [
      | none ↦ pure buf
      | some bytes ↦
          read_all_rounds rounds fuel (suc i) len timeout (buf ++ take (len - length buf) bytes)
    ]
  ])

-- `__read_tcp_all`, for at most so many rounds of its loop.
unfoldable pub read_tcp_all :
    (fuel len timeout : ℕ) (rounds : ℕ → RecvRound) → M CliWorld (ℤ × List ℕ)
read_tcp_all fuel len timeout rounds = do
  s ← load_cli
  if not s.is_connect || s.async then pure (negsuc 0, []) else (do
    ready ← select_out timeout (rounds 0)
    if not ready then pure (negsuc 0, []) else elim (rounds 0).incoming [
      | none ↦ do change_cli (set_error (rounds 0).errno); pure (negsuc 0, [])
      | some bytes ↦ do
        buf ← read_all_rounds rounds fuel 1 len timeout (take len bytes)
        pure (pos (length buf), buf)
    ])

-- The loop of `__write_tcp`, when `sent` bytes of `buf` are written and `rest` is left: what `send`
-- could take in each round, `none` for -1. True if all is written.
unfoldable pub write_rounds : (ℕ → Option ℕ) → (fuel i : ℕ) → List ℕ → M CliWorld Bool
write_rounds sends fuel i [] = pure true
write_rounds sends zero i (b ∷ rest) = λ w. stuck
write_rounds sends (suc fuel) i (b ∷ rest) = elim (sends i) [
  | none ↦ pure false
  | some zero ↦ pure false
  | some (suc n) ↦ do
    modify (log_event (transmitted (take (suc n) (b ∷ rest))))
    write_rounds sends fuel (suc i) (drop (suc n) (b ∷ rest))
]

-- `__write_tcp`: the number of bytes, `none` for -1.
unfoldable pub write_tcp : List ℕ → (ℕ → Option ℕ) → ℕ → M CliWorld (Option ℕ)
write_tcp buf sends errno = do
  s ← load_cli
  if not s.is_connect then pure none else (do
    done ← write_rounds sends (length buf) 0 buf
    if done then pure (some (length buf)) else (do change_cli (set_error errno); pure none))

-- The loop of `__clean_tcp`: the first round in which `select` runs into its timeout is the last.
unfoldable pub clean_rounds : (ℕ → Bool) → (fuel i : ℕ) → M CliWorld (Unit {0})
clean_rounds empty zero i = λ w. stuck
clean_rounds empty (suc fuel) i = elim (empty i) [
  | true ↦ skip
  | false ↦ clean_rounds empty fuel (suc i)
]

-- `__clean_tcp`, for at most so many rounds.
unfoldable pub clean_tcp : (fuel : ℕ) → (ℕ → Bool) → M CliWorld Bool
clean_tcp fuel empty = do
  s ← load_cli
  if not s.is_connect
      then pure false
      else if not s.async
      then pure true
      else (do defined (in_set s.backend_data.socket_id); clean_rounds empty fuel 0; pure true)

-- `__disconnect_tcp` up to the call of `pthread_join`: whether it is made.
unfoldable pub disconnect_start : M CliWorld Bool
disconnect_start = do
  change_cli (λ s. record s { is_connect = false })
  s ← load_cli
  pure (is_some s.backend_data.socket_id && s.async)

-- `pthread_join`, undefined unless a thread has been started and not yet been joined. The thread has
-- come to its end when it returns.
unfoldable pub join_task : M CliWorld (Unit {0})
join_task = do
  s ← load_cli
  defined s.backend_data.t_id
  modify (log_event join_thread)
  change_cli (λ s. record s { backend_data = record s.backend_data { t_id = false } })

-- The rest of `__disconnect_tcp`.
unfoldable pub disconnect_end : M CliWorld (Unit {0})
disconnect_end = do
  s ← load_cli
  elim s.backend_data.socket_id [ none ↦ skip | some id ↦ modify (log_event (sys_close id)) ]
  change_cli (set_id none)

-- `__disconnect_tcp` from the call of `pthread_join` on, which is made or not.
unfoldable pub disconnect_rest : Bool → M CliWorld (Unit {0})
disconnect_rest join = do (if join then join_task else skip); disconnect_end

-- `__disconnect_tcp`
unfoldable pub disconnect_tcp : M CliWorld Bool
disconnect_tcp = do join ← disconnect_start; disconnect_rest join; pure true

-- `__destory_tcp`
unfoldable pub destory_tcp : M CliWorld (Unit {0})
destory_tcp = do closed ← disconnect_tcp; modify (λ w. record w { client = none })

-- `socket_cli_new`, where `malloc` succeeds; `addr` is what `inet_pton` gives.
unfoldable pub socket_cli_new : (port addr : ℕ) → Bool → ℕ → SocketCli
socket_cli_new port addr async con_timeout = record {
  debug = false;
  is_connect = false;
  err_code = 0;
  async = async;
  con_timeout = con_timeout;
  backend_data = record {
    recv_cb = none;
    t_id = false;
    socket_id = none;
    sin_port = port;
    sin_addr = addr;
  };
}

-- The test of the loop of `task_read`.
unfoldable pub task_test : M CliWorld Bool
task_test = do s ← load_cli; pure s.is_connect

-- The rest of the loop body, when `recv` has returned `answer`.
unfoldable pub task_receive : Option (List ℕ) → M CliWorld (Unit {0})
task_receive answer = elim answer [
  | none ↦ skip
  | some [] ↦ skip
  | some (b ∷ bytes) ↦ do
    s ← load_cli
    elim s.backend_data.recv_cb [
      | none ↦ (λ w. fault)
      | some f ↦ modify (log_event (notified f (take 4096 (b ∷ bytes))))
    ]
]

-- True for 0, false for -1. `created` says whether `pthread_create` starts a thread, which the code
-- does not look at.
unfoldable pub socket_register_notify : Option ℕ → Bool → M CliWorld Bool
socket_register_notify recv_cb created = do
  s ← load_cli
  if not s.is_connect || not s.async then pure false else (do
    change_cli (λ s. record s {
      backend_data = record s.backend_data { recv_cb = recv_cb; t_id = created };
    })
    pure true)

unfoldable pub socket_is_connect : M CliWorld Bool
socket_is_connect = do s ← load_cli; pure s.is_connect

unfoldable pub socket_set_debug : Bool → M CliWorld (Unit {0})
socket_set_debug debug = change_cli (λ s. record s { debug = debug })

unfoldable pub socket_get_last_error : M CliWorld ℕ
socket_get_last_error = do s ← load_cli; pure s.err_code

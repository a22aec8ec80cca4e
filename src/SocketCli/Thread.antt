-- ===== src/SocketCli/Thread.antt =====
-- An asynchronous client of src/socket/socket_cli.c: the thread `task_read` runs beside the calls of
-- the application, and `__disconnect_tcp` waits for it.
use libzio.Base.{ℕ, ◌≡◌, Bool, true, false, Option, none, some, List, if◌then◌else◌}
use libzio.Base.Int.{ℤ}
use libzio.Effects.{ok, M, ◌>>=◌, ◌>>◌, pure}
use libzio.SocketCli.State.{CliWorld}
use libzio.SocketCli.Tcp.{
  RecvRound, DialAnswer, read_tcp, read_tcp_all, clean_tcp, socket_set_debug, connect_tcp,
  write_tcp, disconnect_start, disconnect_rest, task_test, task_receive, socket_register_notify,
}

-- Where the thread stands: not started, before the test of its loop, in the call of `recv`, or at
-- its end.
pub data TaskPc : Type 0 where
  not_started testing receiving finished : TaskPc

-- Where the application stands: between two calls, or in `pthread_join`, called by
-- `socket_disconnect` or by `socket_destory`.
pub data CallerPc : Type 0 where
  between : CallerPc
  joining : (destroys : Bool) → CallerPc

pub record Session : Type 0 where
  pub world : CliWorld
  pub task : TaskPc
  pub caller : CallerPc

abbrev pub at_rest : TaskPc → Bool
at_rest not_started = true
at_rest testing = false
at_rest receiving = false
at_rest finished = true

-- `__destory_tcp` frees the client at its end.
abbrev pub freed_if : Bool → CliWorld → CliWorld
freed_if destroys w = if destroys then record w { client = none } else w

abbrev pub started : Bool → TaskPc → TaskPc
started true t = testing
started false t = t

-- The thread `task_read`: from one test of its loop to the call of `recv`, and from the return of
-- `recv`, with `answer`, to the next test.
unfoldable pub task_step : TaskPc → Option (List ℕ) → M CliWorld TaskPc
task_step not_started answer = pure not_started
task_step testing answer = do more ← task_test; pure (if more then receiving else finished)
task_step receiving answer = do task_receive answer; pure testing
task_step finished answer = pure finished

-- One step of the thread or of the application: `pthread_join` returns when the thread has ended. Only functions are registered,
-- and only when no thread runs.
pub data Turn (w : CliWorld) : TaskPc → CallerPc → Session → Type 0 where
  connects :
      {t : TaskPc} {done : Bool} {v : CliWorld} (answer : DialAnswer)
      → connect_tcp answer w ≡ ok (done, v)
      → Turn w t between (record { world = v; task = t; caller = between })
  registers :
      {t : TaskPc} {v : CliWorld} (f : ℕ) (created : Bool)
      → at_rest t ≡ true
      → socket_register_notify (some f) created w ≡ ok (true, v)
      → Turn w t between (record { world = v; task = started created t; caller = between })
  writes :
      {t : TaskPc} {n : Option ℕ} {v : CliWorld} (buf : List ℕ) (sends : ℕ → Option ℕ) (errno : ℕ)
      → write_tcp buf sends errno w ≡ ok (n, v)
      → Turn w t between (record { world = v; task = t; caller = between })
  reads :
      {t : TaskPc} {r : ℤ × List ℕ} {v : CliWorld} (len timeout : ℕ) (answer : RecvRound)
      → read_tcp len timeout answer w ≡ ok (r, v)
      → Turn w t between (record { world = v; task = t; caller = between })
  reads_all :
      {t : TaskPc} {r : ℤ × List ℕ} {v : CliWorld} (fuel len timeout : ℕ) (rounds : ℕ → RecvRound)
      → read_tcp_all fuel len timeout rounds w ≡ ok (r, v)
      → Turn w t between (record { world = v; task = t; caller = between })
  cleans :
      {t : TaskPc} {done : Bool} {v : CliWorld} (fuel : ℕ) (empty : ℕ → Bool)
      → clean_tcp fuel empty w ≡ ok (done, v)
      → Turn w t between (record { world = v; task = t; caller = between })
  sets_debug :
      {t : TaskPc} {v : CliWorld} (debug : Bool)
      → socket_set_debug debug w ≡ ok (tt, v)
      → Turn w t between (record { world = v; task = t; caller = between })
  disconnects :
      {t : TaskPc} {v : CliWorld} (destroys : Bool)
      → disconnect_start w ≡ ok (true, v)
      → Turn w t between (record { world = v; task = t; caller = joining destroys })
  disconnects_at_once :
      {t : TaskPc} {v u : CliWorld} (destroys : Bool)
      → disconnect_start w ≡ ok (false, v)
      → disconnect_rest false v ≡ ok (tt, u)
      → Turn w t between (record { world = freed_if destroys u; task = t; caller = between })
  joins :
      {v : CliWorld} (destroys : Bool)
      → disconnect_rest true w ≡ ok (tt, v)
      → Turn w finished
          (joining destroys)
          (record { world = freed_if destroys v; task = finished; caller = between })
  runs :
      {t t' : TaskPc} {c : CallerPc} {v : CliWorld} (answer : Option (List ℕ))
      → at_rest t ≡ false
      → task_step t answer w ≡ ok (t', v)
      → Turn w t c (record { world = v; task = t'; caller = c })

-- Any number of steps.
pub data Turns (s : Session) : Session → Type 0 where
  here : Turns s s
  further : {t u : Session} → Turns s t → Turn t.world t.task t.caller u → Turns s u

-- ===== src/SocketCli/Sessions.antt =====
-- Sessions of an asynchronous client of src/socket/socket_cli.c, from `socket_cli_new` on.
use libzio.Base.{
  ℕ, ◌≡◌, refl, sym, subst, Bool, true, false, Option, none, some, List, [], ◌∷◌, take,
}
use libzio.Effects.{ok}
use libzio.SocketCli.State.{
  SocketCli, CliWorld, CliEvent, sys_close, join_thread, notified, load_cli, change_cli,
}
use libzio.SocketCli.Tcp.{
  join_task, disconnect_end, disconnect_rest, task_test, task_receive, socket_cli_new,
}
use libzio.SocketCli.Thread.{
  TaskPc, not_started, testing, receiving, finished, CallerPc, between, joining, Session, at_rest,
  freed_if, joins, runs, task_step, Turns, here, further,
}
use libzio.SocketCli.Shapes.{live, still_connected, Shape, gone, quiet, running, cli_at, not_both}
use libzio.SocketCli.Safety.{Turn-Shape}

-- After `socket_cli_new`.
abbrev pub fresh : (port addr : ℕ) → Bool → ℕ → Session
fresh port addr async con_timeout = record {
  world = cli_at (some (socket_cli_new port addr async con_timeout)) [];
  task = not_started;
  caller = between;
}

fresh-Shape :
    (port addr : ℕ) (async : Bool) (con_timeout : ℕ)
    → Shape (some (socket_cli_new port addr async con_timeout)) not_started between
unfolding socket_cli_new
fresh-Shape port addr async con_timeout =
    quiet _ not_started between refl λ h. absurd (not_both h refl)

Turns-Shape :
    (r s : Session)
    → Shape r.world.client r.task r.caller
    → Turns r s
    → Shape s.world.client s.task s.caller
Turns-Shape r _ h here = h
Turns-Shape r u h (further {t} turns turn) =
    Turn-Shape t.world t.task t.caller u (Turns-Shape r t h turns) turn

Shape-live :
    (o : Option SocketCli) (t : TaskPc) (k : CallerPc)
    → Shape o t k
    → at_rest t ≡ false
    → (c : SocketCli) × (f : ℕ) × (id : ℕ) × (o ≡ some (live c f id (still_connected k)))
Shape-live _ _ _ (gone t r) e = absurd (not_both r e)
Shape-live _ _ _ (quiet c t k r h) e = absurd (not_both r e)
Shape-live _ _ _ (running c f id t k r) e = (c, f, id, refl)

-- Whatever calls the application makes on a new client, as long as it registers no NULL callback,
-- and none while a thread runs: while the thread runs, the client has not been freed, its callback is set and its
-- socket is there, and it is connected unless `__disconnect_tcp` waits for the thread.
pub Turns-live :
    (port addr : ℕ) (async : Bool) (con_timeout : ℕ) {s : Session}
    → Turns (fresh port addr async con_timeout) s
    → at_rest s.task ≡ false
    → (c : SocketCli) × (f : ℕ) × (id : ℕ) × (s.world.client
        ≡ some (live c f id (still_connected s.caller)))
Turns-live port addr async con_timeout {s} turns e =
    Shape-live s.world.client s.task s.caller
      (Turns-Shape (fresh port addr async con_timeout) s (fresh-Shape port addr async con_timeout)
        turns)
      e

-- What `recv` has returned, as the callback gets it.
abbrev pub told : ℕ → Option (List ℕ) → List CliEvent → List CliEvent
told f none es = es
told f (some []) es = es
told f (some (b ∷ bytes)) es = notified f (take 4096 (b ∷ bytes)) ∷ es

receive-told :
    (c : SocketCli) (f id : ℕ) (es : List CliEvent) (answer : Option (List ℕ))
    → task_receive answer (cli_at (some (live c f id false)) es)
      ≡ ok (tt, cli_at (some (live c f id false)) (told f answer es))
unfolding task_receive load_cli
receive-told c f id es none = refl
receive-told c f id es (some []) = refl
receive-told c f id es (some (b ∷ bytes)) = refl

abbrev waiting : SocketCli → (f id : ℕ) → List CliEvent → TaskPc → Bool → Session
waiting c f id es t destroys = record {
  world = cli_at (some (live c f id false)) es;
  task = t;
  caller = joining destroys;
}

freed_if-events : (destroys : Bool) (w : CliWorld) → (freed_if destroys w).cli_events ≡ w.cli_events
freed_if-events true w = refl
freed_if-events false w = refl

-- The thread makes its last test, ends and is joined.
waiting-ends :
    (c : SocketCli) (f id : ℕ) (es : List CliEvent) (answer : Option (List ℕ)) (destroys : Bool)
    → (u : Session) × Turns (waiting c f id es receiving destroys) u
      × (u.task ≡ finished)
      × (u.caller ≡ between)
      × (u.world.cli_events ≡ sys_close id ∷ join_thread ∷ told f answer es)
unfolding task_step task_test join_task disconnect_end disconnect_rest load_cli change_cli
waiting-ends c f id es answer destroys =
    let received : Turns (waiting c f id es receiving destroys)
        (waiting c f id (told f answer es) testing destroys) =
      further here (runs answer refl (rw (receive-told c f id es answer) refl)) in
    let tested : Turns (waiting c f id es receiving destroys)
        (waiting c f id (told f answer es) finished destroys) =
      further received (runs none refl refl) in
    (_, further tested (joins destroys refl), refl, refl, freed_if-events destroys _)

-- When a new client has come to a call of `__disconnect_tcp` that waits for a thread in `recv`,
-- and `recv` then returns, whatever it returns, the session can go on to the return of
-- `__disconnect_tcp`: the callback has got the bytes, if there are any, the thread has ended and is
-- joined, and only then the socket is closed.
pub joining-returns :
    (port addr : ℕ) (async : Bool) (con_timeout : ℕ) (destroys : Bool) {w : CliWorld}
    → Turns
        (fresh port addr async con_timeout)
        (record { world = w; task = receiving; caller = joining destroys })
    → (answer : Option (List ℕ))
    → (f : ℕ) × (id : ℕ) × (u : Session) × Turns
        (record { world = w; task = receiving; caller = joining destroys })
        u
      × (u.task ≡ finished)
      × (u.caller ≡ between)
      × (u.world.cli_events ≡ sys_close id ∷ join_thread ∷ told f answer w.cli_events)
joining-returns port addr async con_timeout destroys {w} turns answer =
    let (c, f, id, at) = Turns-live port addr async con_timeout turns refl in
    let (u, ends, a, b, e) =
      subst
        (λ o.
          (u : Session) × Turns
            (record { world = cli_at o w.cli_events; task = receiving; caller = joining destroys })
            u
          × (u.task ≡ finished)
          × (u.caller ≡ between)
          × (u.world.cli_events ≡ sys_close id ∷ join_thread ∷ told f answer w.cli_events))
        (sym at) (waiting-ends c f id w.cli_events answer destroys) in
    (f, id, u, ends, a, b, e)

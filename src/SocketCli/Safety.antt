-- ===== src/SocketCli/Safety.antt =====
-- An asynchronous client of src/socket/socket_cli.c stays usable for its thread, and
-- `__disconnect_tcp` waits for the thread.
use libzio.Base.{
  ℕ, ◌≡◌, refl, sym, subst, Bool, true, false, Option, none, some, List, [], ◌∷◌, if◌then◌else◌,
}
use libzio.Effects.{Outcome, ok, M, modify, skip, defined, ◌>>◌}
use libzio.Effects.Keeps.{After, and_then-After}
use libzio.SocketCli.State.{
  SocketCli, CliWorld, CliEvent, sys_close, load_cli, change_cli, log_event,
}
use libzio.SocketCli.Tcp.{
  disconnect_start, join_task, disconnect_end, disconnect_rest, task_test, task_receive, set_id,
}
use libzio.SocketCli.Steady.{
  IsSteady, write_tcp-Keeps, read_tcp-Keeps, read_tcp_all-Keeps, clean_tcp-Keeps, set_debug-Keeps,
}
use libzio.SocketCli.Thread.{
  not_started, TaskPc, testing, receiving, finished, CallerPc, between, joining, Session, at_rest,
  freed_if, Turn, connects, registers, writes, reads, reads_all, cleans, sets_debug, disconnects,
  disconnects_at_once, joins, runs, task_step,
}
use libzio.SocketCli.Shapes.{
  Shape, gone, quiet, running, cli_at, not_both, connect-Shape, register-Shape, set_error-Shape,
  set_debug-Shape,
}

-- There is a client, which is not connected.
abbrev Told : Option SocketCli → Type 0
Told o = (c : SocketCli) × (o ≡ some c) × (c.is_connect ≡ false)

-- After `disconnect_start` either the thread is waited for or it does not run.
abbrev Started : TaskPc → Bool → Bool → CliWorld → Type 0
Started t destroys join w =
    Told w.client
    × (join ≡ true → Shape w.client t (joining destroys))
    × (join ≡ false → at_rest t ≡ true)

start-Shape :
    (destroys : Bool) (o : Option SocketCli) (es : List CliEvent) (t : TaskPc)
    → Shape o t between
    → After (λ join v. Started t destroys join v) (disconnect_start (cli_at o es))
unfolding disconnect_start load_cli change_cli
start-Shape destroys _ es _ (gone t r) = tt
start-Shape destroys _ es _ (quiet c t between r h) =
    ((_, refl, refl), (λ _. quiet _ t (joining destroys) r refl), λ _. r)
start-Shape destroys _ es _ (running c f id t between r) =
    ((_, refl, refl), (λ _. running c f id t (joining destroys) r), λ e. absurd (not_both refl e))

close-client :
    (o : Option SocketCli) (es : List CliEvent) (id : Option ℕ)
    → After
        (λ _ v. v.client ≡ o)
        ((elim id as (λ _. M CliWorld (Unit {0})) [
          | none ↦ skip
          | some id ↦ modify (log_event (sys_close id))
        ])
          (cli_at o es))
close-client o es none = refl
close-client o es (some id) = refl

freed-Shape :
    (destroys : Bool) (c : SocketCli) (w : CliWorld) (t : TaskPc)
    → w.client ≡ some c
    → c.is_connect ≡ false
    → at_rest t ≡ true
    → Shape (freed_if destroys w).client t between
freed-Shape true c w t at e r = gone t r
freed-Shape false c w t at e r = rw at (quiet c t between r λ h. absurd (not_both h e))

end-Shape :
    (destroys : Bool) (o : Option SocketCli) (es : List CliEvent) (t : TaskPc)
    → Told o
    → at_rest t ≡ true
    → After (λ _ v. Shape (freed_if destroys v).client t between) (disconnect_end (cli_at o es))
unfolding disconnect_end load_cli change_cli
end-Shape destroys o es t (c, at, e) r =
    subst
      (λ o.
        After (λ _ v. Shape (freed_if destroys v).client t between) (disconnect_end (cli_at o es)))
      (sym at)
      (and_then-After (λ _ v. v.client ≡ some c)
        (λ _ v. Shape (freed_if destroys v).client t between) _ (λ _. change_cli (set_id none))
        (close-client (some c) es c.backend_data.socket_id)
        λ _ v a. rw a (freed-Shape destroys (set_id none c) _ t refl e r))

defined-After :
    (P : CliWorld → Type 0) (b : Bool) (m : M CliWorld (Unit {0})) (w : CliWorld)
    → After (λ _ v. P v) (m w)
    → After (λ _ v. P v) ((defined b >> m) w)
defined-After P true m w h = h
defined-After P false m w h = tt

join-Told :
    (destroys : Bool) (o : Option SocketCli) (es : List CliEvent)
    → Shape o finished (joining destroys)
    → After (λ _ v. Told v.client) (join_task (cli_at o es))
unfolding join_task load_cli change_cli
join-Told destroys _ es (quiet c _ _ r h) =
    defined-After (λ v. Told v.client) c.backend_data.t_id _ (cli_at (some c) es) (_, refl, h)
join-Told destroys _ es (running c f id _ _ r) = absurd (not_both refl r)

test-Shape :
    (o : Option SocketCli) (es : List CliEvent) (k : CallerPc)
    → Shape o testing k
    → After
        (λ more v. Shape v.client (if more then receiving else finished) k)
        (task_test (cli_at o es))
unfolding task_test load_cli
test-Shape _ es _ (gone _ r) = absurd (not_both r refl)
test-Shape _ es _ (quiet c _ k r h) = absurd (not_both r refl)
test-Shape _ es _ (running c f id _ between r) = running c f id receiving between refl
test-Shape _ es _ (running c f id _ (joining destroys) r) =
    quiet _ finished (joining destroys) refl refl

receive-Shape :
    (answer : Option (List ℕ)) (o : Option SocketCli) (es : List CliEvent) (k : CallerPc)
    → Shape o receiving k
    → After (λ _ v. Shape v.client testing k) (task_receive answer (cli_at o es))
unfolding task_receive load_cli
receive-Shape answer _ es _ (gone _ r) = absurd (not_both r refl)
receive-Shape answer _ es _ (quiet c _ k r h) = absurd (not_both r refl)
receive-Shape none _ es _ (running c f id _ k r) = running c f id testing k refl
receive-Shape (some []) _ es _ (running c f id _ k r) = running c f id testing k refl
receive-Shape (some (b ∷ bytes)) _ es _ (running c f id _ k r) = running c f id testing k refl

rest-Shape :
    (destroys : Bool) (o : Option SocketCli) (es : List CliEvent) (t : TaskPc)
    → Told o
    → at_rest t ≡ true
    → After
        (λ _ v. Shape (freed_if destroys v).client t between)
        (disconnect_rest false (cli_at o es))
unfolding disconnect_rest
rest-Shape destroys o es t told r = end-Shape destroys o es t told r

joined-Shape :
    (destroys : Bool) (o : Option SocketCli) (es : List CliEvent)
    → Shape o finished (joining destroys)
    → After
        (λ _ v. Shape (freed_if destroys v).client finished between)
        (disconnect_rest true (cli_at o es))
unfolding disconnect_rest
joined-Shape destroys o es h =
    and_then-After (λ _ v. Told v.client)
      (λ _ v. Shape (freed_if destroys v).client finished between) _ (λ _. disconnect_end)
      (join-Told destroys o es h)
      λ _ v told. end-Shape destroys v.client v.cli_events finished told refl

task-Shape :
    (t : TaskPc) (answer : Option (List ℕ)) (o : Option SocketCli) (es : List CliEvent)
    (k : CallerPc)
    → at_rest t ≡ false
    → Shape o t k
    → After (λ t' v. Shape v.client t' k) (task_step t answer (cli_at o es))
unfolding task_step
task-Shape not_started answer o es k r h = h
task-Shape testing answer o es k r h =
    and_then-After (λ more v. Shape v.client (if more then receiving else finished) k)
      (λ t' v. Shape v.client t' k) _ _ (test-Shape o es k h) λ more v s. s
task-Shape receiving answer o es k r h =
    and_then-After (λ _ v. Shape v.client testing k) (λ t' v. Shape v.client t' k) _ _
      (receive-Shape answer o es k h) λ _ v s. s
task-Shape finished answer o es k r h = h

After-ok :
    {A : Type 0} (P : A → CliWorld → Type 0) (o : Outcome (A × CliWorld)) (a : A) (v : CliWorld)
    → o ≡ ok (a, v)
    → After P o
    → P a v
After-ok P o a v e h = subst (λ o. After P o) e h

Shape-IsSteady : (t : TaskPc) → IsSteady (λ o. Shape o t between)
Shape-IsSteady t = record {
  set_error_keeps = λ e c. set_error-Shape e c t;
  set_debug_keeps = λ b c. set_debug-Shape b c t;
}

-- Every step keeps the shape.
pub Turn-Shape :
    (w : CliWorld) (t : TaskPc) (k : CallerPc) (s : Session)
    → Shape w.client t k
    → Turn w t k s
    → Shape s.world.client s.task s.caller
Turn-Shape w t _ _ h (connects answer e) =
    After-ok _ _ _ _ e (connect-Shape answer w.client w.cli_events t h)
Turn-Shape w t _ _ h (registers f created r e) =
    After-ok _ _ _ _ e (register-Shape f created w.client w.cli_events t r h) refl
Turn-Shape w t _ _ h (writes buf sends errno e) =
    After-ok _ _ _ _ e (write_tcp-Keeps (Shape-IsSteady t) buf sends errno w h)
Turn-Shape w t _ _ h (reads len timeout answer e) =
    After-ok _ _ _ _ e (read_tcp-Keeps (Shape-IsSteady t) len timeout answer w h)
Turn-Shape w t _ _ h (reads_all fuel len timeout rounds e) =
    After-ok _ _ _ _ e (read_tcp_all-Keeps (Shape-IsSteady t) fuel len timeout rounds w h)
Turn-Shape w t _ _ h (cleans fuel empty e) =
    After-ok _ _ _ _ e (clean_tcp-Keeps (Shape-IsSteady t) fuel empty w h)
Turn-Shape w t _ _ h (sets_debug debug e) =
    After-ok _ _ _ _ e (set_debug-Keeps (Shape-IsSteady t) debug w h)
Turn-Shape w t _ _ h (disconnects destroys e) =
    (After-ok _ _ _ _ e (start-Shape destroys w.client w.cli_events t h)).1 refl
Turn-Shape w t _ _ h (disconnects_at_once {v} destroys e f) =
    let begun = After-ok _ _ _ _ e (start-Shape destroys w.client w.cli_events t h) in
    After-ok _ _ _ _ f (rest-Shape destroys v.client v.cli_events t begun.0 (begun.2 refl))
Turn-Shape w _ _ _ h (joins destroys e) =
    After-ok _ _ _ _ e (joined-Shape destroys w.client w.cli_events h)
Turn-Shape w t k _ h (runs answer r e) =
    After-ok _ _ _ _ e (task-Shape t answer w.client w.cli_events k r h)

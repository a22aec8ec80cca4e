-- ===== src/SocketCli/Shapes.antt =====
-- The states that an asynchronous client of src/socket/socket_cli.c and its thread get into, and
-- that every step stays among them.
use libzio.Base.{
  ℕ, ◌≡◌, refl, sym, subst, Bool, true, false, not, ◌||◌, Option, none, some, List, ◌∷◌,
  if◌then◌else◌,
}
use libzio.Effects.{M, ◌>>◌, modify, pure}
use libzio.Effects.Keeps.{After, either_case}
use libzio.SocketCli.State.{
  SocketCli, CliWorld, CliEvent, sys_socket, load_cli, change_cli, log_event,
}
use libzio.SocketCli.Tcp.{DialAnswer, connect_tcp, socket_register_notify, set_error, set_id}
use libzio.SocketCli.Thread.{started, TaskPc, testing, CallerPc, between, joining, at_rest}

-- A client whose thread runs, for the callback `f`, on the socket `id`.
abbrev pub live : SocketCli → (f id : ℕ) → Bool → SocketCli
live c f id connected = record c {
  is_connect = connected;
  async = true;
  backend_data = record c.backend_data { recv_cb = some f; t_id = true; socket_id = some id };
}

-- The application that waits for the thread has told it to end.
abbrev pub still_connected : CallerPc → Bool
still_connected between = true
still_connected (joining destroys) = false

-- A connected client has a socket.
abbrev pub HasSocket : SocketCli → Type 0
HasSocket c = c.is_connect ≡ true → (id : ℕ) × (c.backend_data.socket_id ≡ some id)

-- A client that is being disconnected is no longer connected.
abbrev pub Fits : CallerPc → SocketCli → Type 0
Fits between c = HasSocket c
Fits (joining destroys) c = c.is_connect ≡ false

-- The client, the thread and the application fit together: no client, a client whose thread does
-- not run, or one whose thread runs.
pub data Shape : Option SocketCli → TaskPc → CallerPc → Type 0 where
  gone : (t : TaskPc) → at_rest t ≡ true → Shape none t between
  quiet :
      (c : SocketCli) (t : TaskPc) (k : CallerPc) → at_rest t ≡ true → Fits k c → Shape (some c) t k
  running :
      (c : SocketCli) (f id : ℕ) (t : TaskPc) (k : CallerPc)
      → at_rest t ≡ false
      → Shape (some (live c f id (still_connected k))) t k

abbrev pub cli_at : Option SocketCli → List CliEvent → CliWorld
cli_at o es = record { client = o; cli_events = es }

pub not_both : {b : Bool} → b ≡ true → b ≡ false → ⊥
not_both e f = absurd (cc)

dialled :
    (answer : DialAnswer) (c : SocketCli) (es : List CliEvent) (t : TaskPc) (r : at_rest t ≡ true)
    (o : Option ℕ)
    → c.is_connect ≡ false
    → After
        (λ _ v. Shape v.client t between)
        ((elim o as (λ _. M CliWorld Bool) [
          | none ↦ do change_cli (set_error answer.errno); pure false
          | some id ↦ do
            modify (log_event (sys_socket id))
            if not answer.connected
                then (do change_cli (set_error answer.errno); pure false)
                else (do change_cli (λ s. record s { is_connect = true }); pure true)
        ])
          (cli_at (some (set_id o c)) es))
unfolding change_cli load_cli
dialled answer c es t r none e = quiet _ t between r λ h. absurd (not_both h e)
dialled answer c es t r (some id) e =
    either_case Unit (λ _ v. Shape v.client t between) (not answer.connected) _ _
      (cli_at (some (set_id (some id) c)) (sys_socket id ∷ es))
      (λ _. quiet _ t between r λ h. absurd (not_both h e))
      (λ _. quiet _ t between r λ h. (id, refl))

pub connect-Shape :
    (answer : DialAnswer) (o : Option SocketCli) (es : List CliEvent) (t : TaskPc)
    → Shape o t between
    → After (λ _ v. Shape v.client t between) (connect_tcp answer (cli_at o es))
unfolding connect_tcp load_cli change_cli
connect-Shape answer _ es _ (gone t r) = tt
connect-Shape answer _ es _ (quiet c t between r h) =
    either_case Unit (λ _ v. Shape v.client t between) c.is_connect (pure false) _
      (cli_at (some c) es) (λ _. quiet c t between r h)
      (λ e. dialled answer c es t r answer.new_id e)
connect-Shape answer _ es _ (running c f id t between r) = running c f id t between r

live-same :
    (c : SocketCli) (g id : ℕ)
    → c.is_connect ≡ true
    → c.async ≡ true
    → c.backend_data.socket_id ≡ some id
    → record c { backend_data = record c.backend_data { recv_cb = some g; t_id = true } }
      ≡ live c g id true
live-same c g id e a s i = record c {
  is_connect = e i;
  async = a i;
  backend_data = record c.backend_data { recv_cb = some g; t_id = true; socket_id = s i };
}

registered :
    (g : ℕ) (created : Bool) (c : SocketCli) (es : List CliEvent) (t : TaskPc) (b d : Bool)
    → at_rest t ≡ true
    → c.is_connect ≡ b
    → c.async ≡ d
    → HasSocket c
    → After
        (λ done v. done ≡ true → Shape v.client (started created t) between)
        ((if not b || not d then pure false else (do
          change_cli (λ s. record s {
            backend_data = record s.backend_data { recv_cb = some g; t_id = created };
          })
          pure true))
          (cli_at (some c) es))
unfolding load_cli change_cli
registered g created c es t false d r e a h = λ x. absurd (not_both x refl)
registered g created c es t true false r e a h = λ x. absurd (not_both x refl)
registered g true c es t true true r e a h = λ _.
    let (id, s) = h e in
    subst (λ c. Shape (some c) testing between) (sym (live-same c g id e a s))
      (running c g id testing between refl)
registered g false c es t true true r e a h = λ _. quiet _ t between r h

pub register-Shape :
    (g : ℕ) (created : Bool) (o : Option SocketCli) (es : List CliEvent) (t : TaskPc)
    → at_rest t ≡ true
    → Shape o t between
    → After
        (λ done v. done ≡ true → Shape v.client (started created t) between)
        (socket_register_notify (some g) created (cli_at o es))
unfolding socket_register_notify load_cli change_cli
register-Shape g created _ es _ r (gone t e) = tt
register-Shape g created _ es _ r (quiet c t between e h) =
    registered g created c es t c.is_connect c.async e refl refl h
register-Shape g created _ es _ r (running c f id t between e) = absurd (not_both r e)

pub set_error-Shape :
    (e : ℕ) (c : SocketCli) (t : TaskPc)
    → Shape (some c) t between
    → Shape (some (set_error e c)) t between
set_error-Shape e _ _ (quiet c t between r h) = quiet (set_error e c) t between r h
set_error-Shape e _ _ (running c f id t between r) = running (set_error e c) f id t between r

pub set_debug-Shape :
    (b : Bool) (c : SocketCli) (t : TaskPc)
    → Shape (some c) t between
    → Shape (some (record c { debug = b })) t between
set_debug-Shape b _ _ (quiet c t between r h) = quiet (record c { debug = b }) t between r h
set_debug-Shape b _ _ (running c f id t between r) =
    running (record c { debug = b }) f id t between r

-- ===== src/SocketCli/Tests.antt =====
-- Runs of src/socket, and the theorems about it at a concrete client.
use libzio.Base.{
  ℕ, ◌≤◌, ◌<◌, ◌≡◌, ◌⊎◌, refl, Bool, true, false, none, some, [], ◌∷◌, if◌then◌else◌, length, take,
}
use libzio.Base.Int.{pos, negsuc}
use libzio.Effects.{ok, stuck, and_then}
use libzio.Effects.Keeps.{Returns}
use libzio.SocketCli.Faults.{read_all_forever, connect_leak}
use libzio.SocketCli.Filling.{read_tcp_all_lem}
use libzio.SocketCli.State.{
  SocketCli, CliWorld, sys_socket, sys_close, join_thread, transmitted, load_cli, change_cli,
}
use libzio.SocketCli.Sessions.{fresh, Turns-live, told, joining-returns}
use libzio.SocketCli.Shapes.{live, cli_at}
use libzio.SocketCli.Thread.{
  TaskPc, not_started, testing, receiving, finished, CallerPc, between, joining, Session, connects,
  registers, disconnects, runs, task_step, Turns, here, further,
}
use libzio.SocketCli.Streams.{wire, write_tcp_lem}
use libzio.SocketCli.Tcp.{
  RecvRound, connect_tcp, disconnect_tcp, read_tcp_all, write_tcp, write_rounds, disconnect_start,
  task_test, socket_cli_new, socket_register_notify,
}

abbrev client : SocketCli
client = record {
  debug = false;
  is_connect = true;
  err_code = 0;
  async = false;
  con_timeout = 3000;
  backend_data = record {
    recv_cb = none;
    t_id = false;
    socket_id = some 4;
    sin_port = 80;
    sin_addr = 1;
  };
}

abbrev connected : CliWorld
connected = record { client = some client; cli_events = [] }

abbrev unconnected : CliWorld
unconnected = record { client = some (record client { is_connect = false }); cli_events = [] }

-- Two bytes at a time.
abbrev two_each : ℕ → RecvRound
two_each j = record { timed_out = false; incoming = some (7 ∷ 8 ∷ []); errno = 0 }

abbrev at_end : ℕ → RecvRound
at_end j = record { timed_out = false; incoming = some []; errno = 0 }

-- The three bytes go out in two parts.
write_in_parts :
    write_tcp (1 ∷ 2 ∷ 3 ∷ []) (λ j. some 2) 0 connected
    ≡ ok (
      some 3,
      record connected { cli_events = transmitted (3 ∷ []) ∷ transmitted (1 ∷ 2 ∷ []) ∷ [] },
    )
unfolding write_tcp write_rounds load_cli
write_in_parts = refl

write_tcp_lem_example :
    Returns
      (λ count v.
        ((count ≡ some 3) × (wire v.cli_events ≡ 1 ∷ 2 ∷ 3 ∷ []))
        ⊎ ((count ≡ none) × (n : ℕ) × (n < 3) × (wire v.cli_events ≡ take n (1 ∷ 2 ∷ 3 ∷ []))))
      (write_tcp (1 ∷ 2 ∷ 3 ∷ []) (λ j. some 2) 0 connected)
write_tcp_lem_example =
    write_tcp_lem (1 ∷ 2 ∷ 3 ∷ []) (λ j. some 2) 0 connected {s = client} refl refl

read_tcp_all_lem_example :
    Returns
      (λ r v. (r ≡ (negsuc 0, [])) ⊎ ((r.0 ≡ pos (length r.1)) × (length r.1 ≤ 5)))
      (read_tcp_all 5 5 100 two_each connected)
read_tcp_all_lem_example =
    read_tcp_all_lem connected {s = client} refl refl two_each 5 100 refl refl (λ j e. cc)

read_all_forever_example : read_tcp_all 1000 5 0 at_end connected ≡ stuck
read_all_forever_example =
    read_all_forever at_end 1000 4 connected {s = client} refl refl refl (λ j. refl)

connect_leak_example :
    Returns
      (λ done v. v.cli_events ≡ sys_close 6 ∷ sys_socket 6 ∷ sys_socket 5 ∷ [])
      (and_then
        (connect_tcp (record { new_id = some 5; connected = false; errno = 111 }) unconnected)
        λ _ v.
          and_then
            (connect_tcp (record { new_id = some 6; connected = true; errno = 0 }) v)
            λ _. disconnect_tcp)
connect_leak_example = connect_leak unconnected client 5 6 111 refl

-- An asynchronous client on the socket 4, with its callback 9.
abbrev async_client : Bool → Bool → SocketCli
async_client connected started = record client {
  is_connect = connected;
  async = true;
  backend_data = record client.backend_data {
    recv_cb = if started then some 9 else none;
    t_id = started;
  };
}

abbrev at_work : Bool → TaskPc → CallerPc → Session
at_work connected t k = record {
  world = cli_at (some (async_client connected true)) (sys_socket 4 ∷ []);
  task = t;
  caller = k;
}

-- The client connects, registers its callback, the thread goes into `recv`, and the client is
-- disconnected.
reading : Turns (fresh 80 1 true 3000) (at_work true receiving between)
unfolding socket_cli_new connect_tcp socket_register_notify task_step task_test load_cli change_cli
reading =
    further {t = at_work true testing between}
      (further
        {t = record {
          world = cli_at (some (async_client true false)) (sys_socket 4 ∷ []);
          task = not_started;
          caller = between;
        }}
        (further here
          (connects {done = true} (record { new_id = some 4; connected = true; errno = 0 }) refl))
        (registers 9 true refl refl))
      (runs none refl refl)

leaving : Turns (fresh 80 1 true 3000) (at_work false receiving (joining false))
unfolding disconnect_start load_cli change_cli
leaving = further reading (disconnects false refl)

Turns-live_example :
    (c : SocketCli) × (f : ℕ) × (id : ℕ) × (some (async_client true true) ≡ some (live c f id true))
Turns-live_example = Turns-live 80 1 true 3000 reading refl

joining-returns_example :
    (f : ℕ) × (id : ℕ) × (u : Session) × Turns (at_work false receiving (joining false)) u
    × (u.task ≡ finished)
    × (u.caller ≡ between)
    × (u.world.cli_events ≡ sys_close id ∷ join_thread ∷ told f (some (7 ∷ [])) (sys_socket 4 ∷ []))
joining-returns_example = joining-returns 80 1 true 3000 false leaving (some (7 ∷ []))

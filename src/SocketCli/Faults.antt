-- ===== src/SocketCli/Faults.antt =====
-- Where src/socket/socket_cli.c does not do what it is meant to.
use libzio.Base.{
  ℕ, zero, suc, ◌-◌, ◌≡◌, refl, true, false, some, [], ◌∷◌, arith, take, leb, take-nil,
}
use libzio.Effects.{stuck, and_then}
use libzio.Effects.Keeps.{Returns}
use libzio.SocketCli.State.{SocketCli, CliWorld, sys_socket, sys_close, load_cli, change_cli}
use libzio.SocketCli.Streams.{load_cli-ok}
use libzio.SocketCli.Tcp.{
  RecvRound, select_out, read_all_rounds, read_tcp_all, connect_tcp, disconnect_tcp,
  disconnect_start, disconnect_rest, disconnect_end,
}

rounds_forever :
    (rounds : ℕ → RecvRound) (fuel i len : ℕ) (w : CliWorld)
    → ((j : ℕ) → (rounds j).incoming ≡ some [])
    → read_all_rounds rounds fuel i (suc len) 0 [] w ≡ stuck
unfolding read_all_rounds select_out
rounds_forever rounds zero i len w closed =
    let short : leb (suc len) 0 ≡ false = ground arith in rw short refl
rounds_forever rounds (suc fuel) i len w closed =
    let short : leb (suc len) 0 ≡ false = ground arith in
    let nothing : take {A = ℕ} (suc len - 0) [] ≡ [] = take-nil (suc len - 0) in
    rw (short, closed i, nothing) (rounds_forever rounds fuel (suc i) len w closed)

-- When the peer has closed the connection, so that `recv` gives 0 each time, `__read_tcp_all` of
-- at least one byte on a connected client without a thread and without a timeout is not through
-- after any number of rounds of its loop.
pub read_all_forever :
    (rounds : ℕ → RecvRound) (fuel len : ℕ) (w : CliWorld) {s : SocketCli}
    → w.client ≡ some s
    → s.is_connect ≡ true
    → s.async ≡ false
    → ((j : ℕ) → (rounds j).incoming ≡ some [])
    → read_tcp_all fuel (suc len) 0 rounds w ≡ stuck
unfolding read_tcp_all select_out
read_all_forever rounds fuel len w at connected sync closed =
    let loop : read_all_rounds rounds fuel 1 (suc len) 0 [] w ≡ stuck =
      rounds_forever rounds fuel 1 len w closed in
    rw (load_cli-ok w at, connected, sync, closed 0, loop) refl

-- When `connect` fails on a client without a thread, `__connect_tcp` leaves its socket open:
-- after a second call, which succeeds, and `__disconnect_tcp`, only the second socket has been
-- closed.
pub connect_leak :
    (w : CliWorld) (s : SocketCli) (first second errno : ℕ)
    → w.client ≡ some (record s { is_connect = false; async = false })
    → Returns
        (λ done v.
          v.cli_events ≡ sys_close second ∷ sys_socket second ∷ sys_socket first ∷ w.cli_events)
        (and_then
          (connect_tcp (record { new_id = some first; connected = false; errno = errno }) w)
          λ _ v.
            and_then
              (connect_tcp (record { new_id = some second; connected = true; errno = 0 }) v)
              λ _. disconnect_tcp)
unfolding connect_tcp disconnect_tcp disconnect_start disconnect_rest disconnect_end change_cli
    load_cli
connect_leak w s first second errno at = rw at refl

-- ===== src/Zsocket/Opening.antt =====
-- What `zsocket_connect` and `zsocket_listen` of src/zsocket.c do when they succeed and when they
-- fail.
use libzio.Base.{ℕ, ◌≡◌, refl, ap, false, not, none, some, ◌∷◌, if◌then◌else◌, Bool-cases, inl, inr}
use libzio.Effects.Keeps.{Returns}
use libzio.Links.{Links, linked}
use libzio.Zsocket.Counters.{Joins, count_client-Joins}
use libzio.Zsocket.Faults.Asserts.{load-ok, change-ok, update_self}
use libzio.Zsocket.Open.{Callbacks, ConnectAnswer, connect}
use libzio.Zsocket.Shutdown.{assert-ok}
use libzio.Zsocket.State.{Ptr, Fun, Zsocket, World, SockaddrIn, client, server, sys_close}

-- The client that `zsocket_connect` leaves, when no callback is given.
abbrev pub connected_socket : ℕ → SockaddrIn → ConnectAnswer → Zsocket → Zsocket
connected_socket fd addr answer z = record z {
  fd = some fd;
  raddr = addr;
  laddr = answer.local;
  type = client;
  tick = answer.now;
  s_ops = record z.s_ops { connected_cb = none };
}

-- The server that `zsocket_listen` leaves.
abbrev pub listening_socket : ℕ → SockaddrIn → Fun → Zsocket → Zsocket
listening_socket fd addr f z = record z {
  fd = some fd;
  laddr = addr;
  type = server;
  s_ops = record z.s_ops { connection_cb = some f };
}

module _ (links : Links) (p : Ptr) (addr : SockaddrIn) (w : World) {s : Zsocket} {fd : ℕ}
    (at : w.mem p ≡ some s) (open_ : s.state.eof ≡ false) where
  -- When `socket` gives a descriptor, `zsocket_connect` of a live socket that is on no list, without
  -- a callback, returns. If the system call `connect` succeeds it returns 0, and the socket is a
  -- client at the head of the list, counted as one, and not watched yet; else it returns -1, the descriptor is
  -- closed, and the socket, the list, the counters and the sets are as they were.
  pub connect_lem :
      (cbs : Callbacks) (answer : ConnectAnswer)
      → answer.new_fd ≡ some fd
      → linked p w.socks ≡ false
      → Returns
          (λ done v.
            (done ≡ answer.connected)
            × (v.fds_read ≡ w.fds_read)
            × (v.fds_write ≡ w.fds_write)
            × (if answer.connected
                then (v.mem p ≡ some (connected_socket fd addr answer s))
                  × (v.socks ≡ p ∷ w.socks)
                  × Joins client w.status v.status
                  × (v.events ≡ w.events)
                else (v.mem p ≡ some s)
                  × (v.socks ≡ w.socks)
                  × (v.status ≡ w.status)
                  × (v.events ≡ sys_close (some fd) ∷ w.events)))
          (connect links cbs p addr none answer w)
  unfolding connect
  connect_lem cbs answer made new =
      rw (load-ok p w at, assert-ok (not s.state.eof) w (ap not open_), made)
        (elim (Bool-cases answer.connected) [
          | inl e ↦
              rw (e, change-ok p (connected_socket fd addr answer) w at)
                (
                  refl,
                  refl,
                  refl,
                  (
                    update_self w.mem p (some (connected_socket fd addr answer s)),
                    links.add_lem p w.socks new,
                    count_client-Joins w.status,
                    refl,
                  ),
                )
          | inr e ↦ rw e (refl, refl, refl, (at, refl, refl, refl))
        ])

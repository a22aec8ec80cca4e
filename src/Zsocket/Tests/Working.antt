-- ===== src/Zsocket/Tests/Working.antt =====
-- The theorems about single calls of src/zsocket.c at concrete sockets.
use libzio.Base.{
  ℕ, min, ◌==◌, ◌≡◌, inl, refl, arith, true, false, Option, none, some, List, [], ◌∷◌, length, take,
  drop,
}
use libzio.Effects.{abort}
use libzio.Effects.Keeps.{Returns}
use libzio.Qbuf.{used}
use libzio.Links.{kernel_links}
use libzio.Qbuf.{spare}
use libzio.Qbuf.Write.{accepted}
use libzio.Zsocket.Client.{start}
use libzio.Zsocket.Close.{close, cleared}
use libzio.Zsocket.Counters.{Leaves}
use libzio.Zsocket.Io.{handle_recv, rw_max, write, handle_send, sendable}
use libzio.Zsocket.Open.{connect, fresh}
use libzio.Zsocket.Opening.{connect_lem}
use libzio.Zsocket.Buffering.{WithRoom}
use libzio.Zsocket.Receiving.{handle_recv-unread}
use libzio.Zsocket.Sending.{waiting, write-waiting, handle_send-waiting}
use libzio.Zsocket.Shutdown.{marked, close-looping, close-idle}
use libzio.Zsocket.State.{no_addr, client, sys_close, sys_shutdown, freed_rbuf, freed_wbuf}
use libzio.Zsocket.Tests.Data.{
  quiet, enough, two_bytes, two_bytes-IsValid, peer, peer_world, looping_world, declared_world,
  refused, incoming, patient,
}
use libzio.Zsocket.Draining.{Drained, send_turns, send_turns-drains}

write-waiting_example :
    Returns
      (λ n v. (n ≡ accepted two_bytes 2 none) × (waiting (v.mem 1) ≡ 7 ∷ 8 ∷ take n (4 ∷ 5 ∷ [])))
      (write 1 (4 ∷ 5 ∷ []) enough peer_world)
write-waiting_example =
    write-waiting 1 peer_world {s = peer} refl refl (4 ∷ 5 ∷ []) enough {q = two_bytes} refl refl
      two_bytes-IsValid (omega arith)

handle_send-waiting_example :
    Returns
      (λ _ v.
        (waiting (v.mem 1) ≡ drop (sendable two_bytes 1) (7 ∷ 8 ∷ []))
        × (v.socks ≡ 1 ∷ [])
        × (v.events ≡ []))
      (handle_send kernel_links 1 (some 1) peer_world)
handle_send-waiting_example =
    handle_send-waiting 1 peer_world {s = peer} refl refl kernel_links {q = two_bytes} 1 (λ e. cc)
      refl refl two_bytes-IsValid

close-looping_example :
    Returns
      (λ _ v.
        (v.mem 1 ≡ some (marked (some 9) peer))
        × (v.socks ≡ 1 ∷ [])
        × (v.events ≡ [])
        × (v.fds_read 5 ≡ false)
        × (v.fds_write 5 ≡ false)
        × Leaves client start.status v.status
        × (v.in_looping ≡ true)
        × ((q : ℕ) → (1 == q) ≡ false → v.mem q ≡ looping_world.mem q)
        × ((again : Option ℕ) → close kernel_links 1 again v ≡ abort))
      (close kernel_links 1 (some 9) looping_world)
close-looping_example =
    close-looping 1 looping_world {s = peer} {fd = 5} refl refl refl (omega arith) kernel_links
      (some 9) refl

close-idle_example :
    Returns
      (λ _ v.
        (v.mem 1 ≡ some (cleared (marked none peer)))
        × (v.socks ≡ [])
        × (v.events ≡ freed_wbuf 1 ∷ freed_rbuf 1 ∷ sys_close (some 5) ∷ sys_shutdown (some 5) ∷ [])
        × (v.fds_read 5 ≡ false)
        × (v.fds_write 5 ≡ false)
        × Leaves client start.status v.status)
      (close kernel_links 1 none peer_world)
close-idle_example =
    close-idle 1 peer_world {s = peer} {fd = 5} refl refl refl (omega arith) kernel_links none refl
      (inl refl)

connect_lem_example :
    Returns
      (λ done v.
        (done ≡ false)
        × (v.fds_read ≡ start.fds_read)
        × (v.fds_write ≡ start.fds_write)
        × ((v.mem 1 ≡ some fresh)
            × (v.socks ≡ [])
            × (v.status ≡ start.status)
            × (v.events ≡ sys_close (some 5) ∷ [])))
      (connect kernel_links quiet 1 no_addr none refused declared_world)
connect_lem_example =
    connect_lem kernel_links 1 no_addr declared_world {s = fresh} {fd = 5} refl refl quiet refused
      refl refl

handle_recv-unread_example :
    let all : List ℕ = 7 ∷ 8 ∷ take (min (spare two_bytes) rw_max) (9 ∷ 9 ∷ []) in
    Returns
      (λ _. WithRoom 1 (record peer { tick = 8 }) peer_world (drop (min 0 (length all)) all))
      (handle_recv kernel_links patient 1 incoming peer_world)
handle_recv-unread_example =
    handle_recv-unread 1 peer_world {s = peer} {q = two_bytes} refl refl two_bytes-IsValid incoming
      (9 ∷ 9 ∷ []) refl kernel_links patient 71 (λ l. 0) (λ k. 0) (λ e. cc) (λ e. cc) refl refl refl
      (λ l. (omega arith, λ v. refl)) (omega arith) (omega arith) refl

send_turns-drains_example :
    Returns (λ _. Drained 1 []) (send_turns kernel_links 1 (1 ∷ 5 ∷ []) peer_world)
send_turns-drains_example =
    send_turns-drains kernel_links 1 peer (λ e. cc) refl refl (1 ∷ 5 ∷ []) two_bytes peer_world refl
      two_bytes-IsValid (unfold used in omega arith) (omega arith, (omega arith, tt))

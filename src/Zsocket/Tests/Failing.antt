-- ===== src/Zsocket/Tests/Failing.antt =====
-- The theorems about src/zsocket.c where it goes wrong, at concrete sockets.
use libzio.Base.{inr, ◌≡◌, refl, arith, true, false, none, some, [], ◌∷◌}
use libzio.Effects.{abort, fault, and_then}
use libzio.Effects.Keeps.{Returns}
use libzio.Links.{kernel_links}
use libzio.Qbuf.{used, spare}
use libzio.Zsocket.Client.{start}
use libzio.Zsocket.Close.{close, close_with, close_now}
use libzio.Zsocket.Faults.Asserts.{accept-aborts}
use libzio.Zsocket.Faults.Reads.{recv_failure-aborts}
use libzio.Zsocket.Counters.{Leaves}
use libzio.Zsocket.Faults.CloseCallback.{do_close-same}
use libzio.Zsocket.Faults.Siblings.{server-fault}
use libzio.Zsocket.Faults.Turns.{poll_one-aborts, loop-failed}
use libzio.Zsocket.Io.{handle_recv, recv_bytes, recv_start, recv_callback, recv_grow}
use libzio.Zsocket.Loop.{poll_one, do_close, loop}
use libzio.Zsocket.Open.{accept}
use libzio.Zsocket.Shutdown.{marked}
use libzio.Zsocket.State.{
  client, load, change, unwatch_read, unwatch_write, unwatch_read_fd, unwatch_write_fd,
}
use libzio.Zsocket.Tests.Data.{
  quiet, patient, two_bytes, two_bytes-IsValid, peer, peer_world, looping_world, no_connection,
  reset, closing, ready_sets, at_end, closed_peer, broken, fatal, listener, accepted_peer,
  server_world,
}
use libzio.Zsocket.Loop.{do_close_one}
use libzio.Zsocket.Faults.Timeouts.{do_close_one-twice}
use libzio.Zsocket.Tests.Data.{accepted_peer, server_world}
use libzio.Zsocket.State.{Status, World, connection}

accept-aborts_example : accept kernel_links 1 no_connection peer_world ≡ abort
accept-aborts_example =
    accept-aborts kernel_links 1 3 no_connection peer_world {s = peer} refl refl refl refl

recv_failure-aborts_example :
    and_then
      (handle_recv kernel_links patient 1 reset peer_world)
      (λ _. handle_recv kernel_links patient 1 reset)
    ≡ abort
recv_failure-aborts_example =
    recv_failure-aborts 1 peer_world {s = peer} {q = two_bytes} refl refl two_bytes-IsValid reset
      refl kernel_links patient reset 71 (λ l. 0) (λ e. cc) (λ e. cc) refl refl refl
      (unfold spare in omega arith) (unfold used in omega arith) (λ l. (omega arith, λ v. refl))

poll_one-aborts_example : poll_one kernel_links closing at_end ready_sets 1 looping_world ≡ abort
unfolding handle_recv recv_start recv_bytes recv_callback recv_grow close close_with close_now load
    change unwatch_read unwatch_write unwatch_read_fd unwatch_write_fd used spare
poll_one-aborts_example =
    poll_one-aborts kernel_links closing at_end ready_sets 1 looping_world {s = peer} 5 refl refl
      (omega arith) refl refl (closed_peer, refl, refl, refl)

loop-failed_example :
    Returns
      (λ _ v.
        (v.mem 1 ≡ some (marked none peer))
        × (v.socks ≡ 1 ∷ [])
        × (v.events ≡ [])
        × (v.fds_read 5 ≡ false)
        × (v.fds_write 5 ≡ false)
        × Leaves client start.status v.status
        × (v.in_looping ≡ true))
      (and_then
        (loop kernel_links quiet 1500 broken (λ _. 9) peer_world)
        λ _. close kernel_links 1 none)
loop-failed_example =
    loop-failed kernel_links quiet 1500 broken (λ _. 9) peer_world 1 none {s = peer} {fd = 5} refl
      refl refl refl (omega arith)

do_close-same_example :
    do_close kernel_links quiet (λ _. 9) looping_world
    ≡ do_close kernel_links fatal (λ _. 9) looping_world
do_close-same_example = do_close-same kernel_links quiet fatal (λ _. 9) looping_world

server-fault_example : close kernel_links 2 none server_world ≡ fault
server-fault_example =
    server-fault kernel_links 2 3 none server_world (2 ∷ []) {s = listener} {c = accepted_peer}
      {fd = 6} {fd' = 7} (λ e. ground arith) refl refl refl refl refl refl refl (omega arith) refl
      refl (inr refl) refl (omega arith) refl

-- The connection on the list while a loop runs; it has been silent for 400 seconds.
abbrev stalled_world : World
stalled_world = record server_world { in_looping = true }

do_close_one-twice_example :
    Returns
      (λ _ v.
        (st : Status) × Leaves connection stalled_world.status st × Leaves connection st v.status)
      (and_then
        (close kernel_links 3 none stalled_world)
        λ _. do_close_one kernel_links quiet 400 3)
do_close_one-twice_example =
    do_close_one-twice kernel_links 3 {fd = 7} (omega arith) quiet none 400 stalled_world
      {s = accepted_peer} refl refl refl refl refl refl

-- ===== src/Zsocket/Faults/Siblings.antt =====
-- The loop of `__zsocket_close` in src/zsocket.c that closes the sockets on a server's port.
use libzio.Base.{
  ℕ, suc, ◌<◌, ◌≡◌, ◌≢◌, ◌⊎◌, refl, ap, sym, ◌∙◌, true, false, not, Option, none, some, List, [],
  ◌∷◌, arith, length, if◌then◌else◌, ◌==◌, ==-true, ==-false,
}
use libzio.Effects.{ok, fault, M}
use libzio.Links.{Links, entry, poison, behind, first_of_list, erase, linked}
use libzio.Zsocket.Close.{release, close_now, close_siblings, siblings, close_with, close}
use libzio.Zsocket.Faults.Asserts.{load-ok, update_self}
use libzio.Zsocket.Shutdown.{marked, marked_in, close_with-ok, release-ok, after_release, assert-ok}
use libzio.Zsocket.State.{
  unwatch_read_fd, unwatch_write_fd, Ptr, Fun, Zsocket, World, untyped, client, server, connection,
  same_type, fd_setsize,
}

behind-unlinked : (q : ℕ) (l : List ℕ) → linked q l ≡ false → behind q l ≡ poison
behind-unlinked q [] h = refl
behind-unlinked q (x ∷ []) h = ground arith
behind-unlinked q (x ∷ y ∷ l) h =
    let here : (q == x) ≡ false = ground arith in rw here (behind-unlinked q (y ∷ l) (ground arith))

linked-erase : (q p : ℕ) (l : List ℕ) → linked q l ≡ false → linked q (erase p l) ≡ false
linked-erase q p [] h = refl
linked-erase q p (x ∷ l) h = ground (arith, linked-erase q p l)

-- The loop meets a socket on the port that it closes and takes off the list.
siblings-fault :
    (links : Links) (rel : Ptr → M World (Unit {0})) (rounds : ℕ) (q : Ptr) (w v : World)
    {c : Zsocket}
    → w.mem q ≡ some c
    → close_with rel q none w ≡ ok (tt, v)
    → links.list_next q v.socks ≡ poison
    → siblings links rel (suc rounds) c.laddr.sin_port (entry q) w ≡ fault
unfolding siblings
siblings-fault links rel rounds q w v {c} at closed gone =
    rw (load-ok q w at, ==-true c.laddr.sin_port c.laddr.sin_port refl, closed, gone) refl

-- `__zsocket_close` of a marked server, when its loop faults.
release-fault :
    (links : Links) (n : ℕ) (p : Ptr) (w : World) {s : Zsocket}
    → w.mem p ≡ some s
    → s.state.eof ≡ true
    → s.type ≡ server
    → (let v = record w { socks = links.list_del p w.socks } in
        siblings links
          (release links n)
          (length v.socks)
          s.laddr.sin_port
          (links.list_first v.socks)
          v
        ≡ fault)
    → release links (suc n) p w ≡ fault
unfolding release close_siblings
release-fault links n p w {s} at eof kind bad =
    let typed : not (same_type s.type untyped) ≡ true = ap (λ t. not (same_type t untyped)) kind in
    let is_server : same_type s.type server ≡ true = ap (λ t. same_type t server) kind in
    rw
      (
        load-ok p w at,
        assert-ok s.state.eof w eof,
        assert-ok (not (same_type s.type untyped)) w typed,
        is_server,
        bad,
      )
      refl

module _ (links : Links) (p q : Ptr) (cb : Option Fun) (w : World) (rest : List Ptr) {s c : Zsocket}
    {fd fd' : ℕ} where
  -- Closing a live server outside a loop, while the first socket on the list is another live one,
  -- a client or a connection, on its port, such as a connection that it has accepted, goes
  -- through a poisoned pointer, if that socket is on the list once and both descriptors fit into
  -- an `fd_set`: the loop of `__zsocket_close` goes on from a socket that it has just taken off
  -- the list.
  pub server-fault :
      p ≢ q
      → w.socks ≡ q ∷ rest
      → linked q rest ≡ false
      → w.in_looping ≡ false
      → w.mem p ≡ some s
      → s.state.eof ≡ false
      → s.type ≡ server
      → s.fd ≡ some fd
      → fd < fd_setsize
      → w.mem q ≡ some c
      → c.state.eof ≡ false
      → (c.type ≡ client) ⊎ (c.type ≡ connection)
      → c.fd ≡ some fd'
      → fd' < fd_setsize
      → c.laddr.sin_port ≡ s.laddr.sin_port
      → close links p cb w ≡ fault
  unfolding close close_now after_release unwatch_read_fd unwatch_write_fd
  server-fault ne list once idle at open_ kind on small at_q open_q kind_q on_q small_q port =
      let v = marked_in p s fd cb w in
      let v1 = record v { socks = links.list_del p v.socks } in
      let n = length w.socks in
      let other : (p == q) ≡ false = ==-false p q ne in
      let here : v1.mem q ≡ some c = rw other at_q in
      let socks1 : links.list_del p w.socks ≡ q ∷ erase p rest =
        links.del_lem p w.socks ∙ ap (erase p) list ∙ rw other refl in
      let m = marked_in q c fd' none v1 in
      let v2 = after_release links q (marked none c) m in
      let closed : close_with (release links n) q none v1 ≡ ok (tt, v2) =
        close_with-ok q v1 here open_q on_q small_q (release links n) none
        ∙ ap (λ b. if b then ok (tt, m) else release links n q m) idle
        ∙ ap (λ l. release links (length l) q m) list
        ∙ release-ok links (length rest) q m (update_self v1.mem q (some (marked none c))) refl
            kind_q in
      let gone : links.list_next q v2.socks ≡ poison =
        links.next_lem q v2.socks
        ∙ ap (behind q)
            (links.del_lem q v1.socks ∙ ap (erase q) socks1 ∙ rw (==-true q q refl) refl)
        ∙ behind-unlinked q (erase p rest) (linked-erase q p rest once) in
      let bad : siblings links (release links n) (length v1.socks) s.laddr.sin_port
            (links.list_first v1.socks) v1
          ≡ fault =
        ap (λ k. siblings links (release links n) k s.laddr.sin_port (links.list_first v1.socks) v1)
          (ap length socks1)
        ∙ ap
            (λ k.
              siblings links (release links n) (suc (length (erase p rest))) s.laddr.sin_port k v1)
            (links.first_lem v1.socks ∙ ap first_of_list socks1)
        ∙ ap (λ k. siblings links (release links n) (suc (length (erase p rest))) k (entry q) v1)
            (sym port)
        ∙ siblings-fault links (release links n) (length (erase p rest)) q v1 v2 here closed gone in
      close_with-ok p w at open_ on small (close_now links) cb
      ∙ ap (λ b. if b then ok (tt, v) else close_now links p v) idle
      ∙ release-fault links n p v (update_self w.mem p (some (marked cb s))) refl kind bad

-- ===== src/Zsocket/Preserve/Handlers.antt =====
-- `zsocket_handle_recv` and `zsocket_handle_send` of src/zsocket.c, and the body of the loop of
-- `zsocket_poll`, keep an invariant.
use libzio.Base.{Bool, arith, ℕ, true, false, not, is_some, Option, none, some, ◌==◌, double_size}
use libzio.Base.Int.{ℤ, pos, negsuc, int_result}
use libzio.Effects.{pure, skip}
use libzio.Effects.Keeps.{KeepsIn, branch_in, split_in, and_then-Within}
use libzio.Links.{Links}
use libzio.Qbuf
use libzio.Qbuf.{Qbuf, used, spare}
use libzio.Zsocket.Close.{close}
use libzio.Zsocket.Io.{
  Memory, RecvAnswer, checked_count, recv_start, recv_bytes, recv_callback, recv_grow, handle_recv,
  sent, handle_send, buf_size, set_rbuf, set_wbuf, sendable, release_bytes,
}
use libzio.Zsocket.Loop.{PollAnswer, FdSets, fd_isset, poll_one}
use libzio.Zsocket.Open.{Callbacks}
use libzio.Zsocket.Preserve.Rules.{Respects, Rules, at_buf-Keeps}
use libzio.Zsocket.State.{Ptr, Fun, World, untyped, server, same_type}
use libzio.Zsocket.Steps.{load-Within, assert-Within}

module _ {bad : Type 0} {I : World → Type 0} (rules : Rules bad I) where
  recv_start-Keeps : (p : Ptr) (m : Memory) → KeepsIn bad I (recv_start p m)
  unfolding recv_start
  recv_start-Keeps p m w i =
      load-Within bad (λ _. I) p _ w
        λ s e.
          branch_in bad I (is_some s.rbuf) (pure true) _ (λ _ j. j)
            (split_in bad I (Qbuf.new buf_size m.self_ok m.block_ok 0).0 (pure false) _ (λ _ k. k)
              (λ q _ u k.
                and_then-Within bad (λ _. I) (λ _. I) _ _
                  (rules.changing p (set_rbuf q) (λ z t. t) u k) λ _ _ l. l))
            w i

  recv_bytes-Keeps : (p : Ptr) (answer : RecvAnswer) → KeepsIn bad I (recv_bytes p answer)
  unfolding recv_bytes
  recv_bytes-Keeps p answer w i =
      load-Within bad (λ _. I) p _ w
        λ s e.
          and_then-Within bad (λ _. I) (λ _. I) _ _
            (at_buf-Keeps bad I s.rbuf _
              (λ q.
                split_in bad I answer.pending _ _ (rules.changing p _ (λ z t. t))
                  (λ bytes _. rules.changing p (set_rbuf _) (λ z t. t)))
              w i)
            λ _ w' i'. rules.changing p _ (λ z t. t) w' i'

  checked_count-Keeps : (n : ℤ) (len : ℕ) → KeepsIn bad I (checked_count n len)
  checked_count-Keeps (pos n) len w i = i
  checked_count-Keeps (negsuc n) len w i = tt

  recv_callback-Keeps :
      (cbs : Callbacks) (p : Ptr) → Respects bad I cbs → KeepsIn bad I (recv_callback cbs p)
  unfolding recv_callback
  recv_callback-Keeps cbs p r w i =
      load-Within bad (λ _. I) p _ w
        λ s e.
          split_in bad I s.s_ops.read_cb _ _ (λ _ _. tt)
            (λ f _. at_buf-Keeps bad I s.rbuf _ λ q v j.
              and_then-Within bad (λ _. I) (λ _. I) _ _ (r.received f p _ _ v j)
                λ nr v' j'.
                  and_then-Within bad (λ _. I) (λ _. I) _ _
                    (checked_count-Keeps (int_result nr) (used q) v' j')
                    λ n u k.
                      load-Within bad (λ _. I) p _ u
                        λ s' e'.
                          branch_in bad I (n == 0) skip _ (λ _ l. l)
                            (at_buf-Keeps bad I s'.rbuf _
                              λ q'. rules.changing p (set_rbuf _) (λ z t. t))
                            u k)
            w i

  fd_isset-Keeps : (o : Option ℕ) (set : ℕ → Bool) → KeepsIn bad I (fd_isset o set)
  unfolding fd_isset
  fd_isset-Keeps none set w i = tt
  fd_isset-Keeps (some fd) set w i = ground arith

  module _ (links : Links)
      (closing : (p : Ptr) (cb : Option Fun) → KeepsIn bad I (close links p cb)) where
    recv_grow-Keeps : (p : Ptr) (m : Memory) → KeepsIn bad I (recv_grow links p m)
    unfolding recv_grow
    recv_grow-Keeps p m w i =
        load-Within bad (λ _. I) p _ w
          λ s e.
            at_buf-Keeps bad I s.rbuf _
              (λ q.
                branch_in bad I (spare q == 0) _ skip
                  (λ v j.
                    let grown = Qbuf.realloc q (double_size q.size) m.grow in
                    and_then-Within bad (λ _. I) (λ _. I) _ _
                      (rules.changing p (set_rbuf grown.1) (λ z t. t) v j)
                      λ _ v' j'.
                        branch_in bad I grown.0 skip _ (λ _ k. k)
                          (λ u k.
                            and_then-Within bad (λ _. I) (λ _. I) _ _
                              (rules.changing p _ (λ z t. t) u k) λ _ u' k'. closing p none u' k')
                          v' j')
                  (λ _ j. j))
              w i

    pub handle_recv-Keeps :
        (cbs : Callbacks) (p : Ptr) (answer : RecvAnswer)
        → Respects bad I cbs
        → KeepsIn bad I (handle_recv links cbs p answer)
    unfolding handle_recv
    handle_recv-Keeps cbs p answer r w i =
        load-Within bad (λ _. I) p _ w
          λ s e.
            assert-Within bad (λ _. I) (not (same_type s.type untyped)) _ w
              λ _.
                assert-Within bad (λ _. I) (not s.state.eof) _ w
                  λ _.
                    assert-Within bad (λ _. I) s.state.read_enable _ w
                      λ _.
                        branch_in bad I (same_type s.type server) _ _
                          (split_in bad I s.s_ops.connection_cb _ _ (λ _ _. tt)
                            (λ f _. r.connection f p))
                          (λ v j.
                            and_then-Within bad (λ _. I) (λ _. I) _ _
                              (recv_start-Keeps p answer.memory v j)
                              λ started v' j'.
                                branch_in bad I (not started) skip _ (λ _ k. k)
                                  (λ u k.
                                    and_then-Within bad (λ _. I) (λ _. I) _ _
                                      (recv_bytes-Keeps p answer u k)
                                      λ _ u' k'.
                                        and_then-Within bad (λ _. I) (λ _. I) _ _
                                          (recv_callback-Keeps cbs p r u' k')
                                          λ _ x l. recv_grow-Keeps p answer.memory x l)
                                  v' j')
                          w i

    sent-Keeps : (p : Ptr) (q : Qbuf) (answer : Option ℕ) → KeepsIn bad I (sent links p q answer)
    unfolding sent
    sent-Keeps p q none w i =
        and_then-Within bad (λ _. I) (λ _. I) _ _ (rules.changing p _ (λ z t. t) w i)
          λ _ w' i'. closing p none w' i'
    sent-Keeps p q (some n) w i =
        let q' = release_bytes q (sendable q n) in
        branch_in bad I (sendable q n == 0) skip _ (λ _ j. j)
          (λ v j.
            and_then-Within bad (λ _. I) (λ _. I) _ _
              (rules.changing p (set_wbuf q') (λ z t. t) v j)
              λ _ v' j'.
                branch_in bad I (spare q' == 0) _ skip
                  (λ u k.
                    and_then-Within bad (λ _. I) (λ _. I) _ _ (rules.changing p _ (λ z t. t) u k)
                      λ _ u' k'. closing p none u' k')
                  (λ _ k. k) v' j')
          w i

    pub handle_send-Keeps :
        (p : Ptr) (answer : Option ℕ) → KeepsIn bad I (handle_send links p answer)
    unfolding handle_send
    handle_send-Keeps p answer w i =
        load-Within bad (λ _. I) p _ w
          λ s e.
            assert-Within bad (λ _. I) (not (same_type s.type untyped)) _ w
              λ _.
                assert-Within bad (λ _. I) (not s.state.eof) _ w
                  λ _.
                    assert-Within bad (λ _. I) s.state.write_enable _ w
                      λ _.
                        split_in bad I s.wbuf _ _ (λ _ _. tt)
                          (λ q _.
                            branch_in bad I (used q == 0) skip _ (λ _ j. j) (sent-Keeps p q answer))
                          w i

    pub poll_one-Keeps :
        (cbs : Callbacks) (r : Respects bad I cbs) (answer : PollAnswer) (sets : FdSets) (p : Ptr)
        → KeepsIn bad I (poll_one links cbs answer sets p)
    unfolding poll_one
    poll_one-Keeps cbs r answer sets p w i =
        load-Within bad (λ _. I) p _ w
          λ s e.
            and_then-Within bad (λ _. I) (λ _. I) _ _ (fd_isset-Keeps s.fd sets.for_read w i)
              λ readable v j.
                and_then-Within bad (λ _. I) (λ _. I) _ _
                  (branch_in bad I readable _ skip (handle_recv-Keeps cbs p (answer.recv p) r)
                    (λ _ k. k) v j)
                  λ _ v' j'.
                    load-Within bad (λ _. I) p _ v'
                      λ s' e'.
                        and_then-Within bad (λ _. I) (λ _. I) _ _
                          (fd_isset-Keeps s'.fd sets.for_write v' j')
                          λ writable u k.
                            and_then-Within bad (λ _. I) (λ _. I) _ _
                              (branch_in bad I writable _ skip (handle_send-Keeps p (answer.send p))
                                (λ _ l. l) u k)
                              λ _ _ l. l

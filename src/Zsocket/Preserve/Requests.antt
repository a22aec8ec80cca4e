-- ===== src/Zsocket/Preserve/Requests.antt =====
-- `zsocket_read_start`, `zsocket_read_stop` and `zsocket_write` of src/zsocket.c keep an invariant.
use libzio.Base.{ℕ, true, false, not, is_some, Option, List}
use libzio.Effects.{pure}
use libzio.Effects.Keeps.{KeepsIn, branch_in, split_in, and_then-Within}
use libzio.Qbuf
use libzio.Qbuf.{Qbuf, used, spare}
use libzio.Zsocket.Io.{Memory, read_start, read_stop, write_start, write, buf_size, set_wbuf}
use libzio.Zsocket.Preserve.Rules.{Rules, at_buf-Keeps}
use libzio.Zsocket.State.{
  Ptr, Fun, World, watch_read, watch_read_fd, unwatch_read, unwatch_read_fd, watch_write,
  watch_write_fd,
}
use libzio.Zsocket.Steps.{load-Within, assert-Within, at_fd-Within}

module _ {bad : Type 0} {I : World → Type 0} (rules : Rules bad I) where
  pub read_start-Keeps : (p : Ptr) (cb : Option Fun) → KeepsIn bad I (read_start p cb)
  unfolding read_start watch_read
  read_start-Keeps p cb w i =
      load-Within bad (λ _. I) p _ w
        λ s e.
          assert-Within bad (λ _. I) (not s.state.eof) _ w
            λ _.
              assert-Within bad (λ _. I) (not s.state.read_enable) _ w
                λ _.
                  assert-Within bad (λ _. I) (is_some cb) _ w
                    λ _.
                      at_fd-Within bad (λ _. I) watch_read_fd s.fd _ w
                        λ fd _. rules.changing p _ (λ z t. t) _ (rules.watched_read fd w i)

  pub read_stop-Keeps : (p : Ptr) → KeepsIn bad I (read_stop p)
  unfolding read_stop unwatch_read
  read_stop-Keeps p w i =
      load-Within bad (λ _. I) p _ w
        λ s e.
          assert-Within bad (λ _. I) (not s.state.eof) _ w
            λ _.
              assert-Within bad (λ _. I) s.state.read_enable _ w
                λ _.
                  at_fd-Within bad (λ _. I) unwatch_read_fd s.fd _ w
                    λ fd _. rules.changing p _ (λ z t. t) _ (rules.unwatched_read fd w i)

  write_start-Keeps : (p : Ptr) (m : Memory) → KeepsIn bad I (write_start p m)
  unfolding write_start watch_write
  write_start-Keeps p m w i =
      load-Within bad (λ _. I) p _ w
        λ s e.
          branch_in bad I s.state.write_enable (pure true) _ (λ _ j. j)
            (λ v j.
              assert-Within bad (λ _. I) (not (is_some s.wbuf)) _ v
                λ _.
                  split_in bad I (Qbuf.new buf_size m.self_ok m.block_ok 0).0 (pure false) _
                    (λ _ k. k)
                    (λ q _ u k.
                      and_then-Within bad (λ _. I) (λ _. I) _ _
                        (rules.changing p (set_wbuf q) (λ z t. t) u k)
                        λ _ u' k'.
                          at_fd-Within bad (λ _. I) watch_write_fd s.fd _ u'
                            λ fd _.
                              and_then-Within bad (λ _. I) (λ _. I) _ _
                                (rules.changing p _ (λ z t. t) _ (rules.watched_write fd u' k'))
                                λ _ _ l. l)
                    v j)
            w i

  -- `zsocket_write` keeps the invariant.
  pub write-Keeps : (p : Ptr) (buf : List ℕ) (m : Memory) → KeepsIn bad I (write p buf m)
  unfolding write
  write-Keeps p buf m w i =
      load-Within bad (λ _. I) p _ w
        λ s e.
          assert-Within bad (λ _. I) (not s.state.eof) _ w
            λ _.
              and_then-Within bad (λ _. I) (λ _. I) _ _ (write_start-Keeps p m w i)
                λ started w' i'.
                  branch_in bad I (not started) _ _ (λ _ j. j)
                    (λ v j.
                      load-Within bad (λ _. I) p _ v
                        λ s' e'.
                          at_buf-Keeps bad I s'.wbuf _
                            (λ q u k.
                              and_then-Within bad (λ _. I) (λ _. I) _ _
                                (rules.changing p (set_wbuf _) (λ z t. t) u k) λ _ _ l. l)
                            v j)
                    w' i'

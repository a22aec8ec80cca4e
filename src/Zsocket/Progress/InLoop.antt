-- ===== src/Zsocket/Progress/InLoop.antt =====
-- While a loop of src/zsocket.c runs, `zsocket_close` leaves the list `socks` as it is, and so do the
-- functions that read and write.
use libzio.Base.{◌≡◌, refl, not, true, Option, List, ◌++◌}
use libzio.Effects.{M}
use libzio.Effects.Keeps.{KeepsIn, and_then-Within}
use libzio.Links.{Links}
use libzio.Links.Walk.{Distinct}
use libzio.Zsocket.Close.{close_with, close_now, close}
use libzio.Zsocket.Preserve.Rules.{Rules}
use libzio.Zsocket.State.{
  Ptr, Fun, Zsocket, World, change, unwatch_read, unwatch_write, unwatch_read_fd, unwatch_write_fd,
  watch_read_fd, watch_write_fd,
}
use libzio.Zsocket.Steps.{load-Within, assert-Within, at_fd-Within}

-- A loop runs, and the list is as `J` says.
abbrev pub InLoop : (List Ptr → Type 0) → World → Type 0
InLoop J w = (w.in_looping ≡ true) × J w.socks

-- The list is `l`, or `l` behind new entries; each entry is linked once.
abbrev pub Exactly : List Ptr → List Ptr → Type 0
Exactly l socks = (socks ≡ l) × Distinct socks

abbrev pub Extends : List Ptr → List Ptr → Type 0
Extends l socks = ((pre : List Ptr) × (socks ≡ pre ++ l)) × Distinct socks

module _ (J : List Ptr → Type 0) where
  pub change-InLoop : (p : Ptr) (f : Zsocket → Zsocket) → KeepsIn ⊥ (InLoop J) (change p f)
  unfolding change
  change-InLoop p f w i = load-Within ⊥ (λ _. InLoop J) p _ w λ s e. i

  pub Rules-InLoop : Rules ⊥ (InLoop J)
  unfolding watch_read_fd unwatch_read_fd watch_write_fd
  Rules-InLoop = record {
    changing = λ p f _. change-InLoop p f;
    watched_read = λ fd w i. i;
    unwatched_read = λ fd w i. i;
    watched_write = λ fd w i. i;
  }

  pub close_with-InLoop :
      (rel : Ptr → M World (Unit {0})) (p : Ptr) (cb : Option Fun)
      → KeepsIn ⊥ (InLoop J) (close_with rel p cb)
  unfolding close_with unwatch_read unwatch_write unwatch_read_fd unwatch_write_fd
  close_with-InLoop rel p cb w i =
      load-Within ⊥ (λ _. InLoop J) p _ w
        λ s e.
          assert-Within ⊥ (λ _. InLoop J) (not s.state.eof) _ w
            λ _.
              at_fd-Within ⊥ (λ _. InLoop J) unwatch_read_fd s.fd _ w
                λ fd _.
                  at_fd-Within ⊥ (λ _. InLoop J) unwatch_write_fd s.fd _ (unwatch_read_fd fd w)
                    λ fd' _.
                      and_then-Within ⊥ (λ _. InLoop J) (λ _. InLoop J) _ _ (change-InLoop p _ _ i)
                        λ _ v j. rw j.0 (refl, j.1)

  pub close-InLoop :
      (links : Links) (p : Ptr) (cb : Option Fun) → KeepsIn ⊥ (InLoop J) (close links p cb)
  unfolding close
  close-InLoop links = close_with-InLoop (close_now links)

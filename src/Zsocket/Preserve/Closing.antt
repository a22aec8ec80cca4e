-- ===== src/Zsocket/Preserve/Closing.antt =====
-- `zsocket_close` and `__zsocket_close` of src/zsocket.c keep the invariant.
use libzio.Base.{ℕ, zero, suc, ◌≢◌, refl, sym, ◌∙◌, not, Option, none, some, ◌==◌, length}
use libzio.Effects.{M, skip}
use libzio.Effects.Keeps.{Keeps, branch, and_then-After}
use libzio.Links.{Links, Cursor, entry, head, poison}
use libzio.Zsocket.Close.{close_with, siblings, close_siblings, release, close_now, close, cleared}
use libzio.Zsocket.Invariant.{Inv, Accounts-closed}
use libzio.Zsocket.State.{
  Ptr, Fun, untyped, server, same_type, Zsocket, World, unwatch_read_fd, unwatch_write_fd,
  unwatch_read, unwatch_write,
}
use libzio.Zsocket.Steps.{
  load-After, assert-After, at_fd-After, change-Keeps, unwatch_read_fd-Inv, unwatch_write_fd-Inv,
  status-Inv, others-Inv,
}

pub close_with-Keeps :
    (rel : Ptr → M World (Unit {0})) (p : Ptr) (cb : Option Fun)
    → ((q : Ptr) → Keeps Inv (rel q))
    → Keeps Inv (close_with rel p cb)
unfolding close_with unwatch_read unwatch_write
close_with-Keeps rel p cb h w i =
    load-After (λ _. Inv) p _ w
      λ s e.
        assert-After (λ _. Inv) (not s.state.eof) _ w
          λ _.
            at_fd-After (λ _. Inv) unwatch_read_fd s.fd _ w
              λ fd d.
                at_fd-After (λ _. Inv) unwatch_write_fd s.fd _ (unwatch_read_fd fd w)
                  λ fd' d'.
                    and_then-After (λ _. Inv) (λ _. Inv) _ _
                      (change-Keeps p _ (λ z t. t) _
                        (unwatch_write_fd-Inv fd' _ (unwatch_read_fd-Inv fd w i)))
                      λ _ w' i'.
                        branch Inv w'.in_looping skip (rel p) (λ _ j. j) (h p) _
                          (status-Inv _ w'
                            (Accounts-closed i'.accounts s.type
                              λ u. absurd (no_fd (sym d ∙ i.typed p s e u)))
                            i')
  where
    no_fd : {fd : ℕ} → some fd ≢ none
    no_fd e = cc

module _ (links : Links) where
  open links use {list_del, list_first, list_next}

  pub siblings-Keeps :
      (rel : Ptr → M World (Unit {0})) (rounds port : ℕ) (c : Cursor)
      → ((q : Ptr) → Keeps Inv (rel q))
      → Keeps Inv (siblings links rel rounds port c)
  unfolding siblings
  siblings-Keeps rel rounds port head h w i = i
  siblings-Keeps rel rounds port poison h w i = tt
  siblings-Keeps rel zero port (entry q) h w i = tt
  siblings-Keeps rel (suc rounds) port (entry q) h w i =
      load-After (λ _. Inv) q _ w
        λ s e.
          and_then-After (λ _. Inv) (λ _. Inv) _ _
            (branch Inv (s.laddr.sin_port == port) (close_with rel q none) skip
              (close_with-Keeps rel q none h) (λ _ j. j) w i)
            λ _ w' i'. siblings-Keeps rel rounds port (list_next q w'.socks) h w' i'

  close_siblings-Keeps :
      (rel : Ptr → M World (Unit {0})) (s : Zsocket)
      → ((q : Ptr) → Keeps Inv (rel q))
      → Keeps Inv (close_siblings links rel s)
  unfolding close_siblings
  close_siblings-Keeps rel s h w i =
      branch Inv (same_type s.type server) _ skip
        (λ v j. siblings-Keeps rel (length v.socks) s.laddr.sin_port (list_first v.socks) h v j)
        (λ _ j. j) w i

  pub release-Keeps : (fuel : ℕ) (p : Ptr) → Keeps Inv (release links fuel p)
  unfolding release
  release-Keeps zero p w i = tt
  release-Keeps (suc fuel) p w i =
      load-After (λ _. Inv) p _ w
        λ s e.
          assert-After (λ _. Inv) s.state.eof _ w
            λ _.
              assert-After (λ _. Inv) (not (same_type s.type untyped)) _ w
                λ _.
                  and_then-After (λ _. Inv) (λ _. Inv) _ _
                    (close_siblings-Keeps (release links fuel) s (release-Keeps fuel) _
                      (others-Inv _ (list_del p w.socks) _ i))
                    λ _ w' i'.
                      load-After (λ _. Inv) p _ w'
                        λ s' e'. change-Keeps p cleared (λ z t u. refl) _ (others-Inv _ _ _ i')

  pub close_now-Keeps : (p : Ptr) → Keeps Inv (close_now links p)
  unfolding close_now
  close_now-Keeps p w i = release-Keeps (suc (length w.socks)) p w i

  -- `zsocket_close` keeps the invariant.
  pub close-Keeps : (p : Ptr) (cb : Option Fun) → Keeps Inv (close links p cb)
  unfolding close
  close-Keeps p cb = close_with-Keeps (close_now links) p cb close_now-Keeps

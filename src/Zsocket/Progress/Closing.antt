-- ===== src/Zsocket/Progress/Closing.antt =====
-- `__zsocket_close` and `zsocket_do_close` of src/zsocket.c come to an end while a loop runs.
use libzio.Base.{
  ℕ, zero, suc, ◌≤◌, ◌-◌, ◌≡◌, refl, ap, sym, ◌∙◌, subst, not, ◌&&◌, ltb, none, List, [], ◌∷◌, ◌++◌,
  append_assoc, arith, length, ◌==◌,
}
use libzio.Base.Int.{pos}
use libzio.Effects.{M, pure, skip}
use libzio.Effects.Keeps.{
  Within, Ends, KeepsIn, and_then-Within, branch_in, either_way, Within-weaker, split_in,
}
use libzio.Links.{Links, Cursor, behind, first_of_list, erase}
use libzio.Links.Walk.{Distinct, Distinct-middle, Distinct-without, behind-append, erase-append}
use libzio.Zsocket.Close.{siblings, close_siblings, release, close_now, close_with, cleared}
use libzio.Zsocket.Loop.{finish, do_close_one, do_close_all, do_close, step}
use libzio.Zsocket.Faults.CloseCallback.{do_close-same}
use libzio.Zsocket.Open.{Callbacks}
use libzio.Zsocket.Progress.InLoop.{
  InLoop, Exactly, Extends, change-InLoop, close_with-InLoop, close-InLoop,
}
use libzio.Zsocket.State.{Ptr, Zsocket, World, untyped, server, connection, same_type}
use libzio.Zsocket.Steps.{load-Within, assert-Within}

module _ (links : Links) where
  -- Where `list_for_each_entry` goes on behind `p`.
  pub next_entry :
      (p : Ptr) (pre suf socks : List Ptr)
      → socks ≡ pre ++ p ∷ suf
      → Distinct socks
      → links.list_next p socks ≡ first_of_list suf
  next_entry p pre suf socks e d =
      links.next_lem p socks
      ∙ ap (behind p) e
      ∙ behind-append p pre suf (Distinct-middle p pre suf (subst Distinct e d))

  -- The loop of `__zsocket_close` from the entries `suf` on.
  siblings-Exactly :
      (rel : Ptr → M World (Unit {0})) (rounds port : ℕ) (l pre suf : List Ptr)
      → l ≡ pre ++ suf
      → length suf ≤ rounds
      → KeepsIn ⊥ (InLoop (Exactly l)) (siblings links rel rounds port (first_of_list suf))
  unfolding siblings
  siblings-Exactly rel rounds port l pre [] e h w i = i
  siblings-Exactly rel zero port l pre (q ∷ suf) e h w i = absurd (omega arith)
  siblings-Exactly rel (suc rounds) port l pre (q ∷ suf) e h w i =
      load-Within ⊥ (λ _. InLoop (Exactly l)) q _ w
        λ s _.
          and_then-Within ⊥ (λ _. InLoop (Exactly l)) (λ _. InLoop (Exactly l)) _ _
            (branch_in ⊥ (InLoop (Exactly l)) (s.laddr.sin_port == port) (close_with rel q none)
              skip (close_with-InLoop (Exactly l) rel q none) (λ _ j. j) w i)
            λ _ v j. rw (next_entry q pre suf v.socks (j.1.0 ∙ e) j.1.1) (
              siblings-Exactly rel rounds port l (pre ++ q ∷ []) suf
                (e ∙ sym (append_assoc pre (q ∷ []) suf)) (omega arith) v j)

  siblings_all :
      (rel : Ptr → M World (Unit {0})) (port : ℕ) (l socks : List Ptr) (c : Cursor)
      → socks ≡ l
      → c ≡ first_of_list socks
      → KeepsIn ⊥ (InLoop (Exactly l)) (siblings links rel (length socks) port c)
  siblings_all rel port l socks c e f w i =
      rw (f, e) (siblings-Exactly rel (length l) port l [] l refl (omega arith) w i)

  close_siblings-Exactly :
      (rel : Ptr → M World (Unit {0})) (s : Zsocket) (l : List Ptr)
      → KeepsIn ⊥ (InLoop (Exactly l)) (close_siblings links rel s)
  unfolding close_siblings
  close_siblings-Exactly rel s l w i =
      branch_in ⊥ (InLoop (Exactly l)) (same_type s.type server) _ skip
        (λ v j. siblings_all rel s.laddr.sin_port l v.socks _ j.1.0 (links.first_lem v.socks) v j)
        (λ _ j. j) w i

  -- `__zsocket_close` takes the socket off the list.
  release-Exactly :
      (fuel : ℕ) (p : Ptr) (pre suf : List Ptr) (w : World)
      → InLoop (Exactly (pre ++ p ∷ suf)) w
      → Ends (λ _. InLoop (Exactly (pre ++ suf))) (release links (suc fuel) p w)
  unfolding release
  release-Exactly fuel p pre suf w i =
      let d : Distinct (pre ++ p ∷ suf) = subst Distinct i.1.0 i.1.1 in
      let off : links.list_del p w.socks ≡ pre ++ suf =
        links.del_lem p w.socks
        ∙ ap (erase p) i.1.0
        ∙ erase-append p pre suf (Distinct-middle p pre suf d) in
      let J = InLoop (Exactly (pre ++ suf)) in
      load-Within ⊥ (λ _. J) p _ w
        λ s _.
          assert-Within ⊥ (λ _. J) s.state.eof _ w
            λ _.
              assert-Within ⊥ (λ _. J) (not (same_type s.type untyped)) _ w
                λ _.
                  and_then-Within ⊥ (λ _. J) (λ _. J) _ _
                    (close_siblings-Exactly (release links fuel) s (pre ++ suf)
                      (record w { socks = links.list_del p w.socks })
                      (i.0, (off, subst Distinct (sym off) (Distinct-without p pre suf d))))
                    λ _ v j.
                      load-Within ⊥ (λ _. J) p _ v
                        λ _ _. change-InLoop (Exactly (pre ++ suf)) p cleared _ j

  -- Callbacks that do nothing.
  abbrev silent : Callbacks
  silent = record {
    on_connected = λ f p. skip;
    on_connection = λ f p. skip;
    on_close = λ f p. skip;
    on_read = λ f p bytes len. pure (pos 0);
  }

  finish-Exactly :
      (p : Ptr) (pre suf : List Ptr) (w : World)
      → InLoop (Exactly (pre ++ p ∷ suf)) w
      → Ends (λ _. InLoop (Exactly (pre ++ suf))) (finish links silent p w)
  unfolding finish close_now
  finish-Exactly p pre suf w i =
      let J = InLoop (Exactly (pre ++ suf)) in
      and_then-Within ⊥ (λ _. J) (λ _. J) _ _ (release-Exactly (length w.socks) p pre suf w i)
        λ _ v j.
          load-Within ⊥ (λ _. J) p _ v
            λ s _.
              and_then-Within ⊥ (λ _. J) (λ _. J) _ _
                (split_in ⊥ J s.s_ops.close_cb skip _ (λ _ k. k) (λ f _ u k. k) v j)
                λ _ u k.
                  load-Within ⊥ (λ _. J) p _ u
                    λ s' _.
                      branch_in ⊥ J (same_type s'.type connection) _ skip (λ _ l. l) (λ _ l. l) u k

  do_close_one-Ends :
      (now : ℕ) (p : Ptr) (pre suf : List Ptr) (w : World)
      → InLoop (Exactly (pre ++ p ∷ suf)) w
      → Ends (λ _. InLoop (Extends suf)) (do_close_one links silent now p w)
  unfolding do_close_one
  do_close_one-Ends now p pre suf w i =
      let J = InLoop (Exactly (pre ++ p ∷ suf)) in
      let K = InLoop (Extends suf) in
      load-Within ⊥ (λ _. K) p _ w
        λ s _.
          and_then-Within ⊥ (λ _. J) (λ _. K) _ _
            (branch_in ⊥ J (same_type s.type connection && ltb s.stall (now - s.tick)) _ skip
              (λ v j.
                and_then-Within ⊥ (λ _. J) (λ _. J) _ _
                  (change-InLoop (Exactly (pre ++ p ∷ suf)) p _ v j)
                  λ _ v' j'. close-InLoop (Exactly (pre ++ p ∷ suf)) links p none v' j')
              (λ _ j. j) w i)
            λ _ u k.
              load-Within ⊥ (λ _. K) p _ u
                λ s' _.
                  either_way ⊥ (λ _. K) s'.state.eof (finish links silent p) skip u
                    (Within-weaker ⊥ (λ _. InLoop (Exactly (pre ++ suf))) (λ _. K) _
                      (finish-Exactly p pre suf u k) λ _ v l. (l.0, ((pre, l.1.0), l.1.1)))
                    (k.0, ((pre ++ p ∷ [], k.1.0 ∙ sym (append_assoc pre (p ∷ []) suf)), k.1.1))

  -- The cursor `n` that `list_for_each_entry_safe` keeps, when it stands at `suf`.
  abbrev Follows : Cursor → List Ptr → Type 0
  Follows n [] = Unit
  Follows n (p ∷ suf) = n ≡ first_of_list suf

  step-Follows :
      (suf pre socks : List Ptr) (n : Cursor)
      → socks ≡ pre ++ suf
      → Distinct socks
      → n ≡ first_of_list suf
      → Follows (step links n socks) suf
  step-Follows [] pre socks n e d f = tt
  step-Follows (q ∷ suf) pre socks n e d f = rw f (next_entry q pre suf socks e d)

  do_close_all-Ends :
      (clock : Ptr → ℕ) (rounds : ℕ) (suf : List Ptr) (n : Cursor)
      → length suf ≤ rounds
      → (w : World) → Follows n suf
      → InLoop (Extends suf) w
      → Ends (λ _. InLoop Distinct) (do_close_all links silent clock rounds (first_of_list suf) n w)
  unfolding do_close_all
  do_close_all-Ends clock rounds [] n h w e i = (i.0, i.1.1)
  do_close_all-Ends clock zero (p ∷ suf) n h w e i = absurd (omega arith)
  do_close_all-Ends clock (suc rounds) (p ∷ suf) n h w e i =
      let ((pre, f), d) = i.1 in
      and_then-Within ⊥ (λ _. InLoop (Extends suf)) (λ _. InLoop Distinct) _ _
        (do_close_one-Ends (clock p) p pre suf w (i.0, (f, d)))
        λ _ v j.
          let ((pre', g), d') = j.1 in
          rw e (
            do_close_all-Ends clock rounds suf (step links (first_of_list suf) v.socks)
              (omega arith) v (step-Follows suf pre' v.socks (first_of_list suf) g d' refl) j)

  do_close-silent : (clock : Ptr → ℕ) → KeepsIn ⊥ (InLoop Distinct) (do_close links silent clock)
  unfolding do_close
  do_close-silent clock w i = rw (links.first_lem w.socks) (
      do_close_all-Ends clock (length w.socks) w.socks (step links (first_of_list w.socks) w.socks)
        (omega arith) w (step-Follows w.socks [] w.socks (first_of_list w.socks) refl i.1 refl)
        (i.0, (([], refl), i.1)))

  -- `zsocket_do_close` ends while a loop runs, if the list links each socket once, whatever the
  -- callbacks would do.
  pub do_close-Ends :
      (cbs : Callbacks) (clock : Ptr → ℕ) → KeepsIn ⊥ (InLoop Distinct) (do_close links cbs clock)
  do_close-Ends cbs clock w i =
      subst (Within ⊥ (λ _. InLoop Distinct)) (do_close-same links silent cbs clock w)
        (do_close-silent clock w i)

-- ===== src/Zsocket/Preserve/Turn.antt =====
-- A turn of the event loop of src/zsocket.c keeps the invariant.
use libzio.Base.{
  ℕ, zero, suc, ◌-◌, Bool, true, ◌&&◌, not, none, ltb, ◌==◌, if◌then◌else◌, length, ◌/◌, ◌%◌, ◌*◌,
}
use libzio.Effects.{M, pure, skip}
use libzio.Effects.Keeps.{Keeps, branch, split_option, and_then-After}
use libzio.Links.{Links, Cursor, entry, head, poison}
use libzio.Zsocket.Invariant.{Inv}
use libzio.Zsocket.Loop.{
  Selected, idle, failed, ready, PollAnswer, FdSets, fd_sets, nfds, poll_all, poll, finish,
  do_close_one, do_close_all, do_close, loop, step,
}
use libzio.Zsocket.Open.{Callbacks}
use libzio.Zsocket.Preserve.Closing.{close-Keeps, close_now-Keeps}
use libzio.Zsocket.Preserve.Handlers.{poll_one-Keeps}
use libzio.Zsocket.Preserve.Rules.{Rules-Inv, Respects}
use libzio.Zsocket.State.{Ptr, World, connection, same_type}
use libzio.Zsocket.Steps.{load-After, change-Keeps, others-Inv, forget-Inv}

module _ (links : Links) (cbs : Callbacks) (r : Respects Unit Inv cbs) where
  open links use {list_first, list_next}

  poll_all-Keeps :
      (answer : PollAnswer) (sets : FdSets) (rounds selected : ℕ) (c : Cursor)
      → Keeps Inv (poll_all links cbs answer sets rounds selected c)
  unfolding poll_all
  poll_all-Keeps answer sets rounds selected head w i = i
  poll_all-Keeps answer sets rounds selected poison w i = tt
  poll_all-Keeps answer sets zero selected (entry p) w i = tt
  poll_all-Keeps answer sets (suc rounds) selected (entry p) w i =
      and_then-After (λ _. Inv) (λ _. Inv) _ _
        (poll_one-Keeps Rules-Inv links (close-Keeps links) cbs r answer sets p w i)
        λ handled v j.
          branch Inv (handled && selected == 1) skip _ (λ _ k. k)
            (poll_all-Keeps answer sets rounds (if handled then selected - 1 else selected)
              (list_next p v.socks))
            v j

  split_selected :
      (a : Selected) (m : M World Bool) (f : Bool → M World Bool)
      (g : ℕ → (ℕ → Bool) → (ℕ → Bool) → M World Bool)
      → Keeps Inv m
      → ((b : Bool) → Keeps Inv (f b))
      → ((n : ℕ) (x y : ℕ → Bool) → Keeps Inv (g n x y))
      → Keeps Inv (elim a [ idle ↦ m | failed b ↦ f b | ready n x y ↦ g n x y ])
  split_selected idle m f g h k l = h
  split_selected (failed b) m f g h k l = k b
  split_selected (ready n x y) m f g h k l = l n x y

  pub poll-Keeps : (timeout : ℕ) (answer : PollAnswer) → Keeps Inv (poll links cbs timeout answer)
  unfolding poll
  poll-Keeps timeout answer w i =
      split_selected (answer.select (nfds w) (timeout / 1000) (timeout % 1000 * 1000)) (pure true)
        (λ b. pure b) _ (λ _ j. j) (λ _ _ j. j)
        (λ n x y v j.
          and_then-After (λ _. Inv) (λ _. Inv) _ _
            (poll_all-Keeps answer (fd_sets w x y) (length w.socks) n (list_first w.socks) v j)
            λ _ _ k. k)
        w i

  finish-Keeps : (p : Ptr) → Keeps Inv (finish links cbs p)
  unfolding finish
  finish-Keeps p w i =
      and_then-After (λ _. Inv) (λ _. Inv) _ _ (close_now-Keeps links p w i)
        λ _ v j.
          load-After (λ _. Inv) p _ v
            λ s e.
              and_then-After (λ _. Inv) (λ _. Inv) _ _
                (split_option Inv s.s_ops.close_cb skip _ (λ _ k. k)
                  (λ f _ u k. r.closed f p _ (others-Inv _ _ _ k)) v j)
                λ _ v' j'.
                  load-After (λ _. Inv) p _ v'
                    λ s' e'.
                      branch Inv (same_type s'.type connection) _ skip
                        (λ u k. others-Inv _ _ _ (forget-Inv p k)) (λ _ k. k) v' j'

  do_close_one-Keeps : (now : ℕ) (p : Ptr) → Keeps Inv (do_close_one links cbs now p)
  unfolding do_close_one
  do_close_one-Keeps now p w i =
      load-After (λ _. Inv) p _ w
        λ s e.
          and_then-After (λ _. Inv) (λ _. Inv) _ _
            (branch Inv (same_type s.type connection && ltb s.stall (now - s.tick)) _ skip
              (λ v j.
                and_then-After (λ _. Inv) (λ _. Inv) _ _ (change-Keeps p _ (λ z t. t) v j)
                  λ _ v' j'. close-Keeps links p none v' j')
              (λ _ j. j) w i)
            λ _ u k.
              load-After (λ _. Inv) p _ u
                λ s' e'. branch Inv s'.state.eof _ skip (finish-Keeps p) (λ _ l. l) u k

  do_close_all-Keeps :
      (clock : Ptr → ℕ) (rounds : ℕ) (c n : Cursor)
      → Keeps Inv (do_close_all links cbs clock rounds c n)
  unfolding do_close_all
  do_close_all-Keeps clock rounds head n w i = i
  do_close_all-Keeps clock rounds poison n w i = tt
  do_close_all-Keeps clock zero (entry p) n w i = tt
  do_close_all-Keeps clock (suc rounds) (entry p) n w i =
      and_then-After (λ _. Inv) (λ _. Inv) _ _ (do_close_one-Keeps (clock p) p w i)
        λ _ v j. do_close_all-Keeps clock rounds n (step links n v.socks) v j

  pub do_close-Keeps : (clock : Ptr → ℕ) → Keeps Inv (do_close links cbs clock)
  unfolding do_close
  do_close-Keeps clock w i =
      do_close_all-Keeps clock (length w.socks) (list_first w.socks)
        (step links (list_first w.socks) w.socks) w i

  -- A turn of the loop, whatever the system answers, keeps the invariant if the callbacks do.
  pub loop-Keeps :
      (timeout : ℕ) (answer : PollAnswer) (clock : Ptr → ℕ)
      → Keeps Inv (loop links cbs timeout answer clock)
  unfolding loop
  loop-Keeps timeout answer clock w i =
      and_then-After (λ _. Inv) (λ _. Inv) _ _ (poll-Keeps timeout answer _ (others-Inv _ _ _ i))
        λ polled v j.
          branch Inv (not polled) _ _ (λ _ k. k)
            (λ u k.
              and_then-After (λ _. Inv) (λ _. Inv) _ _ (do_close-Keeps clock u k)
                λ _ u' k'. others-Inv _ _ _ k')
            v j

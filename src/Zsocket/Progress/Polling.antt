-- ===== src/Zsocket/Progress/Polling.antt =====
-- `zsocket_poll` of src/zsocket.c comes to an end, if the callbacks of the application do.
use libzio.Base.{
  ℕ, zero, suc, ◌-◌, ◌/◌, ◌%◌, ◌*◌, ◌≤◌, ◌≡◌, refl, sym, ◌∙◌, Bool, true, ◌&&◌, List, [], ◌∷◌, ◌++◌,
  append_assoc, arith, length, ◌==◌, if◌then◌else◌,
}
use libzio.Effects.{M, pure, skip}
use libzio.Effects.Keeps.{Ends, KeepsIn, and_then-Within, either_way}
use libzio.Links.{Links, Cursor, first_of_list}
use libzio.Links.Walk.{Distinct}
use libzio.Zsocket.Loop.{
  Selected, idle, failed, ready, PollAnswer, FdSets, fd_sets, nfds, poll_all, poll,
}
use libzio.Zsocket.Open.{Callbacks}
use libzio.Zsocket.Preserve.Handlers.{poll_one-Keeps}
use libzio.Zsocket.Preserve.Rules.{Respects}
use libzio.Zsocket.Progress.Closing.{next_entry}
use libzio.Zsocket.Progress.InLoop.{InLoop, Extends, Rules-InLoop, close-InLoop}
use libzio.Zsocket.State.{Ptr, World}

-- What a callback does to the list while a loop runs: it comes to an end, leaves the loop running,
-- and adds no socket but new ones, at the front.
abbrev pub Grows : Callbacks → Type 0
Grows cbs = (l : List Ptr) → Respects ⊥ (InLoop (Extends l)) cbs

module _ (links : Links) (cbs : Callbacks) (grows : Grows cbs) where
  -- The loop of `zsocket_poll` from the entries `suf` on.
  poll_all-Ends :
      (answer : PollAnswer) (sets : FdSets) (rounds selected : ℕ) (suf : List Ptr)
      → length suf ≤ rounds
      → (w : World) → InLoop (Extends suf) w
      → Ends
          (λ _. InLoop Distinct)
          (poll_all links cbs answer sets rounds selected (first_of_list suf) w)
  unfolding poll_all
  poll_all-Ends answer sets rounds selected [] h w i = (i.0, i.1.1)
  poll_all-Ends answer sets zero selected (p ∷ suf) h w i = absurd (omega arith)
  poll_all-Ends answer sets (suc rounds) selected (p ∷ suf) h w i =
      and_then-Within ⊥ (λ _. InLoop (Extends (p ∷ suf))) (λ _. InLoop Distinct) _ _
        (poll_one-Keeps (Rules-InLoop (Extends (p ∷ suf))) links
          (close-InLoop (Extends (p ∷ suf)) links) cbs (grows (p ∷ suf)) answer sets p w i)
        λ handled v j.
          let ((pre, e), d) = j.1 in
          either_way ⊥ (λ _. InLoop Distinct) (handled && selected == 1) skip _ v (j.0, d)
            (rw (next_entry links p pre suf v.socks e d) (
              poll_all-Ends answer sets rounds (if handled then selected - 1 else selected) suf
                (omega arith) v
                (j.0, ((pre ++ p ∷ [], e ∙ sym (append_assoc pre (p ∷ []) suf)), d))))

  poll_ready :
      (answer : PollAnswer) (sets : FdSets) (n : ℕ) (socks : List Ptr) (c : Cursor)
      → c ≡ first_of_list socks
      → (w : World) → socks ≡ w.socks
      → InLoop Distinct w
      → Ends (λ _. InLoop Distinct) (poll_all links cbs answer sets (length socks) n c w)
  poll_ready answer sets n socks c e w f i =
      rw e
        (poll_all-Ends answer sets (length socks) n socks (omega arith) w (i.0, (([], sym f), i.1)))

  by_selected :
      (a : Selected) (w : World)
      → InLoop Distinct w
      → (g : ℕ → (ℕ → Bool) → (ℕ → Bool) → M World Bool)
      → ((n : ℕ) (x y : ℕ → Bool) → Ends (λ _. InLoop Distinct) (g n x y w))
      → Ends
          (λ _. InLoop Distinct)
          ((elim a as (λ _. M World Bool) [
            | idle ↦ pure true
            | failed b ↦ pure b
            | ready n x y ↦ g n x y
          ])
            w)
  by_selected idle w i g h = i
  by_selected (failed b) w i g h = i
  by_selected (ready n x y) w i g h = h n x y

  -- `zsocket_poll` ends while a loop runs.
  pub poll-Ends :
      (timeout : ℕ) (answer : PollAnswer)
      → KeepsIn ⊥ (InLoop Distinct) (poll links cbs timeout answer)
  unfolding poll
  poll-Ends timeout answer w i =
      by_selected (answer.select (nfds w) (timeout / 1000) (timeout % 1000 * 1000)) w i _ λ n x y.
        and_then-Within ⊥ (λ _. InLoop Distinct) (λ _. InLoop Distinct) _ _
          (poll_ready answer (fd_sets w x y) n w.socks _ (links.first_lem w.socks) w refl i)
          λ _ _ j. j

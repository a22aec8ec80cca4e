-- ===== src/Zsocket/Progress/Turn.antt =====
-- `zsocket_loop` of src/zsocket.c comes to an end.
use libzio.Base.{ℕ, ◌≡◌, refl, true, false, not}
use libzio.Effects.{pure}
use libzio.Effects.Keeps.{Ends, and_then-Within, either_way}
use libzio.Links.{Links}
use libzio.Links.Walk.{Distinct}
use libzio.Zsocket.Loop.{PollAnswer, loop}
use libzio.Zsocket.Open.{Callbacks}
use libzio.Zsocket.Progress.Closing.{do_close-Ends}
use libzio.Zsocket.Progress.InLoop.{InLoop}
use libzio.Zsocket.Progress.Polling.{Grows, poll-Ends}
use libzio.Zsocket.State.{Ptr, World}

-- A turn of `zsocket_loop` ends, whatever the system answers: its walks over the list, those in
-- `__zsocket_close` included, never run out of the rounds that the list gives them, if the list
-- links each socket once, and each callback that runs in the turn ends, leaves the loop running and
-- changes the list only by adding new sockets at the front. If it returns, the list still links
-- each socket once, and the loop runs no more exactly if the result is 0.
pub loop-Ends :
    (links : Links) (cbs : Callbacks) (timeout : ℕ) (answer : PollAnswer) (clock : Ptr → ℕ)
    (w : World)
    → Grows cbs
    → Distinct w.socks
    → Ends
        (λ done v. Distinct v.socks × (v.in_looping ≡ not done))
        (loop links cbs timeout answer clock w)
unfolding loop
loop-Ends links cbs timeout answer clock w grows d =
    and_then-Within ⊥ (λ _. InLoop Distinct)
      (λ done v. Distinct v.socks × (v.in_looping ≡ not done)) _ _
      (poll-Ends links cbs grows timeout answer (record w { in_looping = true }) (refl, d))
      λ polled v i.
        either_way ⊥ (λ done v. Distinct v.socks × (v.in_looping ≡ not done)) (not polled)
          (pure false) _ v (i.1, i.0)
          (and_then-Within ⊥ (λ _. InLoop Distinct)
            (λ done v. Distinct v.socks × (v.in_looping ≡ not done)) _ _
            (do_close-Ends links cbs clock v i) λ _ u j. (j.1, refl))

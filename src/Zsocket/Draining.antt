-- ===== src/Zsocket/Draining.antt =====
-- The write buffer of a socket of src/zsocket.c over many turns of the loop: the bytes that wait are
-- sent in the end.
use libzio.Base.{
  ℕ, ◌≤◌, ◌<◌, ◌-◌, ◌≡◌, ◌≢◌, refl, ap, sym, ◌∙◌, true, false, some, List, [], ◌∷◌, arith, length,
  length-drop, drop_all,
}
use libzio.Effects.{M, ◌>>◌, skip}
use libzio.Effects.Keeps.{Returns, Returns-weaker, Returns-and_then}
use libzio.Links.{Links}
use libzio.Qbuf.{Qbuf, used}
use libzio.Qbuf.Contents.{contents}
use libzio.Qbuf.Moves.{length-contents}
use libzio.Qbuf.Valid.{IsValid}
use libzio.Zsocket.Io.{handle_send, sendable, set_wbuf}
use libzio.Zsocket.Sending.{waiting, Sent, handle_send-Sent}
use libzio.Zsocket.State.{Ptr, Event, Zsocket, World, untyped}

-- One call of `zsocket_handle_send` after another, where `send` could take so many bytes.
unfoldable pub send_turns : Links → Ptr → List ℕ → M World (Unit {0})
send_turns links p [] = skip
send_turns links p (n ∷ ns) = handle_send links p (some n) >> send_turns links p ns

-- No byte waits, and nothing has been shut down or closed since the events `es`.
abbrev pub Drained : Ptr → List Event → World → Type 0
Drained p es v = (waiting (v.mem p) ≡ []) × (v.events ≡ es)

-- `send` takes a byte at least in each turn.
abbrev pub Accepts : List ℕ → Type 0
Accepts [] = Unit
Accepts (n ∷ ns) = (0 < n) × Accepts ns

module _ (links : Links) (p : Ptr) (s : Zsocket) (typed : s.type ≢ untyped)
    (open_ : s.state.eof ≡ false) (enabled : s.state.write_enable ≡ true) where
  -- Turn after turn, on a live socket of some type that is being written and has a valid write
  -- buffer, `zsocket_handle_send` returns, and if `send` can take a byte at least in every turn, then
  -- after as many turns as bytes were waiting, or more, no byte waits, and nothing has been closed.
  pub send_turns-drains :
      (ns : List ℕ) (q : Qbuf) (w : World)
      → w.mem p ≡ some (set_wbuf q s)
      → IsValid q
      → used q ≤ length ns
      → Accepts ns
      → Returns (λ _. Drained p w.events) (send_turns links p ns w)
  unfolding send_turns
  send_turns-drains [] q w at valid few accepts =
      (ap waiting at ∙ drop_all 0 (contents q) (omega (arith, length-contents valid)), refl)
  send_turns-drains (n ∷ ns) q w at valid few accepts =
      Returns-and_then (λ _. Sent p (set_wbuf q s) w q n) _ _ (λ _. send_turns links p ns)
        (handle_send-Sent p w at open_ links n typed enabled refl valid)
        λ _ v (q', e, valid', f, _, events).
          let left : used q' ≡ used q - sendable q n =
            sym (length-contents valid')
            ∙ ap length f
            ∙ length-drop (sendable q n) (contents q)
            ∙ ap (λ l. l - sendable q n) (length-contents valid) in
          Returns-weaker (λ _. Drained p v.events) (λ _. Drained p w.events) _
            (send_turns-drains ns q' v e valid' (omega (arith, accepts.0)) accepts.1)
            λ _ u (none_left, same). (none_left, same ∙ events)

-- ===== src/Zsocket/Faults/CloseCallback.antt =====
-- The close callbacks of src/zsocket.c: `__zsocket_close` clears the pointer before
-- `zsocket_do_close` reads it.
use libzio.Base.{fun_ext, ℕ, zero, suc, ◌≡◌, refl, ap, sym, ◌∙◌, not, Option, none, some, length}
use libzio.Effects.{ok, fault, M, and_then}
use libzio.Effects.Keeps.{After, and_then-After, and_then-same, After-any}
use libzio.Links.{Links, Cursor, entry, head, poison}
use libzio.Zsocket.Close.{release, close_now, close_siblings, cleared}
use libzio.Zsocket.Loop.{finish, do_close_one, do_close_all, do_close, step}
use libzio.Zsocket.Open.{Callbacks}
use libzio.Zsocket.Faults.Asserts.{update_self}
use libzio.Zsocket.State.{
  Ptr, Zsocket, World, same_type, SocketOperations, no_operations, change, load,
}
use libzio.Zsocket.Steps.{load-After, assert-After}

-- The socket has no callbacks.
abbrev Silent : Ptr → World → Type 0
Silent p w = (s : Zsocket) → w.mem p ≡ some s → s.s_ops ≡ no_operations

change-cleared : (p : Ptr) (w : World) → After (λ _. Silent p) (change p cleared w)
unfolding change
change-cleared p w =
    load-After (λ _. Silent p) p _ w
      λ s e z f. silent s z (sym (update_self w.mem p (some (cleared s))) ∙ f)
  where
    silent : (s z : Zsocket) → some (cleared s) ≡ some z → z.s_ops ≡ no_operations
    silent s z e = sym (ap ops e)
      where
        ops : Option Zsocket → SocketOperations
        ops none = no_operations
        ops (some z) = z.s_ops

load-same :
    {B : Type 0} (p : Ptr) (f g : Zsocket → M World B) (w : World)
    → ((s : Zsocket) → w.mem p ≡ some s → f s w ≡ g s w)
    → and_then (load p w) f ≡ and_then (load p w) g
unfolding load
load-same p f g w h = by_mem (w.mem p) refl
  where
    by_mem :
        (m : Option Zsocket)
        → w.mem p ≡ m
        → and_then (elim m [ none ↦ fault | some s ↦ ok (s, w) ]) f
          ≡ and_then (elim m [ none ↦ fault | some s ↦ ok (s, w) ]) g
    by_mem none e = refl
    by_mem (some s) e = h s e

module _ (links : Links) where
  release-Silent : (fuel : ℕ) (p : Ptr) (w : World) → After (λ _. Silent p) (release links fuel p w)
  unfolding release
  release-Silent zero p w = tt
  release-Silent (suc fuel) p w =
      load-After (λ _. Silent p) p _ w
        λ s _.
          assert-After (λ _. Silent p) s.state.eof _ w
            λ _.
              assert-After (λ _. Silent p) (not (same_type s.type _)) _ w
                λ _.
                  and_then-After (λ _ _. Unit {0}) (λ _. Silent p) _ _
                    (After-any (close_siblings links (release links fuel) s _))
                    λ _ v _. load-After (λ _. Silent p) p _ v λ s _. change-cleared p _

  close_now-Silent : (p : Ptr) (w : World) → After (λ _. Silent p) (close_now links p w)
  unfolding close_now
  close_now-Silent p w = release-Silent (suc (length w.socks)) p w

  -- What `zsocket_do_close` does at a closed socket does not depend on its callbacks.
  finish-same :
      (cbs cbs' : Callbacks) (p : Ptr) (w : World) → finish links cbs p w ≡ finish links cbs' p w
  unfolding finish
  finish-same cbs cbs' p w =
      and_then-same (λ _. Silent p) (close_now links p w) _ _ (close_now-Silent p w)
        λ _ v h. load-same p _ _ v λ s e. rw (h s e)

  do_close_one-same :
      (cbs cbs' : Callbacks) (now : ℕ) (p : Ptr) (w : World)
      → do_close_one links cbs now p w ≡ do_close_one links cbs' now p w
  unfolding do_close_one
  do_close_one-same cbs cbs' now p w = rw (fun_ext (finish-same cbs cbs' p)) refl

  do_close_all-same :
      (cbs cbs' : Callbacks) (clock : Ptr → ℕ) (rounds : ℕ) (c n : Cursor) (w : World)
      → do_close_all links cbs clock rounds c n w ≡ do_close_all links cbs' clock rounds c n w
  unfolding do_close_all
  do_close_all-same cbs cbs' clock rounds head n w = refl
  do_close_all-same cbs cbs' clock rounds poison n w = refl
  do_close_all-same cbs cbs' clock zero (entry p) n w = refl
  do_close_all-same cbs cbs' clock (suc rounds) (entry p) n w =
      rw (do_close_one-same cbs cbs' (clock p) p w) (
        and_then-same (λ _ _. Unit {0}) (do_close_one links cbs' (clock p) p w) _ _ (After-any _)
          λ _ v _. do_close_all-same cbs cbs' clock rounds n (step links n v.socks) v)

  -- `zsocket_do_close` never runs a close callback: the outcome, the memory and the events are the
  -- same whatever the callbacks of the application do.
  pub do_close-same :
      (cbs cbs' : Callbacks) (clock : Ptr → ℕ) (w : World)
      → do_close links cbs clock w ≡ do_close links cbs' clock w
  unfolding do_close
  do_close-same cbs cbs' clock w =
      do_close_all-same cbs cbs' clock (length w.socks) (links.list_first w.socks)
        (step links (links.list_first w.socks) w.socks) w

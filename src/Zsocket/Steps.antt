-- ===== src/Zsocket/Steps.antt =====
-- Rules for the effects of src/zsocket.c: what is known behind each of them if the run goes on.
use libzio.Base.{
  ℕ, ◌≡◌, refl, List, Bool, true, false, Option, none, some, arith, ltb, if◌then◌else◌,
}
use libzio.Effects.{ok, fault, M, and_then, assert}
use libzio.Effects.Keeps.{Within, After, Keeps}
use libzio.Zsocket.Invariant.{Inv, Accounts, Typed, Covers-raise, Covers-lower}
use libzio.Zsocket.State.{
  Ptr, Event, Zsocket, Status, World, load, change, put_socket, update, at_fd, watch_read_fd,
  unwatch_read_fd, watch_write_fd, unwatch_write_fd, fd_setsize,
}

module _ (bad : Type 0) {B : Type 0} (Q : B → World → Type 0) where
  pub load-Within :
      (p : Ptr) (f : Zsocket → M World B) (w : World)
      → ((s : Zsocket) → w.mem p ≡ some s → Within bad Q (f s w))
      → Within bad Q (and_then (load p w) f)
  unfolding load
  load-Within p f w h = by_mem (w.mem p) refl
    where
      by_mem :
          (m : Option Zsocket)
          → w.mem p ≡ m
          → Within bad Q (and_then (elim m [ none ↦ fault | some s ↦ ok (s, w) ]) f)
      by_mem none e = tt
      by_mem (some s) e = h s e

  pub assert-Within :
      (b : Bool) (f : Unit {0} → M World B) (w : World)
      → (b ≡ true → Within bad Q (f tt w))
      → Within bad Q (and_then (assert b w) f)
  assert-Within true f w h = h refl
  assert-Within false f w h = tt

  pub at_fd-Within :
      (g : ℕ → World → World) (o : Option ℕ) (f : Unit {0} → M World B) (w : World)
      → ((fd : ℕ) → o ≡ some fd → Within bad Q (f tt (g fd w)))
      → Within bad Q (and_then (at_fd g o w) f)
  at_fd-Within g none f w h = tt
  at_fd-Within g (some fd) f w h = by_size (ltb fd fd_setsize)
    where
      by_size : (b : Bool) → Within bad Q (and_then (if b then ok (tt, g fd w) else fault) f)
      by_size true = h fd refl
      by_size false = tt

module _ {B : Type 0} (Q : B → World → Type 0) where
  pub load-After :
      (p : Ptr) (f : Zsocket → M World B) (w : World)
      → ((s : Zsocket) → w.mem p ≡ some s → After Q (f s w))
      → After Q (and_then (load p w) f)
  load-After p f w h = load-Within Unit Q p f w h

  pub assert-After :
      (b : Bool) (f : Unit {0} → M World B) (w : World)
      → (b ≡ true → After Q (f tt w))
      → After Q (and_then (assert b w) f)
  assert-After b f w h = assert-Within Unit Q b f w h

  pub at_fd-After :
      (g : ℕ → World → World) (o : Option ℕ) (f : Unit {0} → M World B) (w : World)
      → ((fd : ℕ) → o ≡ some fd → After Q (f tt (g fd w)))
      → After Q (and_then (at_fd g o w) f)
  at_fd-After g o f w h = at_fd-Within Unit Q g o f w h

-- A change of one socket keeps the invariant if the socket stays `Typed`.
pub put_socket-Inv : (p : Ptr) (z : Zsocket) {w : World} → Typed z → Inv w → Inv (put_socket p z w)
put_socket-Inv p z {w} t i = record {
  covers_read = i.covers_read;
  covers_write = i.covers_write;
  accounts = i.accounts;
  typed = λ q s e u. ground (arith, t, i.typed q s);
}

pub change-Keeps :
    (p : Ptr) (f : Zsocket → Zsocket)
    → ((s : Zsocket) → Typed s → Typed (f s))
    → Keeps Inv (change p f)
unfolding change
change-Keeps p f h w i =
    load-After (λ _. Inv) p _ w λ s e. put_socket-Inv p (f s) (h s (i.typed p s e)) i

-- The two sets stay below their bounds.
pub watch_read_fd-Inv : (fd : ℕ) (w : World) → Inv w → Inv (watch_read_fd fd w)
unfolding watch_read_fd
watch_read_fd-Inv fd w i = record {
  covers_read = Covers-raise w.nfds_read w.fds_read fd i.covers_read;
  covers_write = i.covers_write;
  accounts = i.accounts;
  typed = i.typed;
}

pub unwatch_read_fd-Inv : (fd : ℕ) (w : World) → Inv w → Inv (unwatch_read_fd fd w)
unfolding unwatch_read_fd
unwatch_read_fd-Inv fd w i = record {
  covers_read = Covers-lower w.nfds_read w.fds_read fd i.covers_read;
  covers_write = i.covers_write;
  accounts = i.accounts;
  typed = i.typed;
}

pub watch_write_fd-Inv : (fd : ℕ) (w : World) → Inv w → Inv (watch_write_fd fd w)
unfolding watch_write_fd
watch_write_fd-Inv fd w i = record {
  covers_read = i.covers_read;
  covers_write = Covers-raise w.nfds_write w.fds_write fd i.covers_write;
  accounts = i.accounts;
  typed = i.typed;
}

pub unwatch_write_fd-Inv : (fd : ℕ) (w : World) → Inv w → Inv (unwatch_write_fd fd w)
unfolding unwatch_write_fd
unwatch_write_fd-Inv fd w i = record {
  covers_read = i.covers_read;
  covers_write = Covers-lower w.nfds_write w.fds_write fd i.covers_write;
  accounts = i.accounts;
  typed = i.typed;
}

pub at_fd-Keeps :
    (g : ℕ → World → World) (o : Option ℕ)
    → ((fd : ℕ) (w : World) → Inv w → Inv (g fd w))
    → Keeps Inv (at_fd g o)
at_fd-Keeps g none h w i = tt
at_fd-Keeps g (some fd) h w i = ground (arith, h fd w i)

pub status-Inv : (st : Status) (w : World) → Accounts st → Inv w → Inv (record w { status = st })
status-Inv st w a i = record {
  covers_read = i.covers_read;
  covers_write = i.covers_write;
  accounts = a;
  typed = i.typed;
}

-- The list, the events and the flag `in_looping` are no part of the invariant.
pub others-Inv :
    {w : World} (looping : Bool) (socks : List Ptr) (events : List Event)
    → Inv w
    → Inv (record w { in_looping = looping; socks = socks; events = events })
others-Inv looping socks events i = record {
  covers_read = i.covers_read;
  covers_write = i.covers_write;
  accounts = i.accounts;
  typed = i.typed;
}

pub forget-Inv : (p : Ptr) {w : World} → Inv w → Inv (record w { mem = update w.mem p none })
forget-Inv p i = record {
  covers_read = i.covers_read;
  covers_write = i.covers_write;
  accounts = i.accounts;
  typed = λ q s e u. ground (arith, i.typed q s);
}

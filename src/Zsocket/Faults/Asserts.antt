-- ===== src/Zsocket/Faults/Asserts.antt =====
-- Assertions of src/zsocket.c that fail in situations that the code means to handle.
use libzio.Base.{
  ℕ, suc, ◌≡◌, ap, refl, Bool, true, false, Option, none, some, length, arith, ==-true, ◌∙◌,
}
use libzio.Effects.{Outcome, ok, abort, fault, M, and_then, assert}
use libzio.Links.{Links}
use libzio.Zsocket.Close.{release, close_now}
use libzio.Zsocket.Open.{AcceptAnswer, accept, init, init_lib, fresh, blank}
use libzio.Zsocket.State.{Ptr, Zsocket, World, load, change, put_socket, update}

pub load-ok : (p : Ptr) (w : World) {s : Zsocket} → w.mem p ≡ some s → load p w ≡ ok (s, w)
unfolding load
load-ok p w {s} e = ap (by_mem w) e
  where
    by_mem : World → Option Zsocket → Outcome (Zsocket × World)
    by_mem w m = elim m [ none ↦ fault | some s ↦ ok (s, w) ]

pub update_self {ℓ} : {A : Type ℓ} (f : ℕ → A) (p : ℕ) (v : A) → update f p v p ≡ v
update_self f p v = rw (==-true p p refl)

pub load-put :
    (p : Ptr) (z : Zsocket) (w : World) → load p (put_socket p z w) ≡ ok (z, put_socket p z w)
load-put p z w = load-ok p (put_socket p z w) (update_self w.mem p (some z))

pub change-ok :
    (p : Ptr) (f : Zsocket → Zsocket) (w : World) {s : Zsocket}
    → w.mem p ≡ some s
    → change p f w ≡ ok (tt, put_socket p (f s) w)
unfolding change
change-ok p f w e = rw (load-ok p w e)

-- `__zsocket_close` at a socket that has not been closed.
pub release_open :
    (links : Links) (n : ℕ) (p : Ptr) (w : World) {s : Zsocket}
    → w.mem p ≡ some s
    → s.state.eof ≡ false
    → release links (suc n) p w ≡ abort
unfolding release
release_open links n p w e open_ = rw (load-ok p w e, open_)

init_lib-mem : (w : World) → (init_lib w).mem ≡ w.mem
init_lib-mem w = ground arith

init-ok :
    (p : Ptr) (z : Zsocket) (w : World)
    → init p (put_socket p z w) ≡ ok (tt, put_socket p fresh (init_lib (put_socket p z w)))
unfolding init
init-ok p z w =
    change-ok p (λ _. fresh) (init_lib (put_socket p z w))
      (ap (λ m. m p) (init_lib-mem (put_socket p z w)) ∙ update_self w.mem p (some z))

-- When `zsocket_accept` of a live server has memory for a connection and the system call `accept`
-- fails, it aborts the program: the connection that it hands to `__zsocket_close` has not been
-- closed.
pub accept-aborts :
    (links : Links) (p conn : Ptr) (answer : AcceptAnswer) (w : World) {s : Zsocket}
    → w.mem p ≡ some s
    → s.state.eof ≡ false
    → answer.block ≡ some conn
    → answer.new_fd ≡ none
    → accept links p answer w ≡ abort
unfolding accept close_now
accept-aborts links p conn answer w e open_ b f = rw (
  load-ok p w e,
  open_,
  b,
  f,
  init-ok conn blank w,
  release_open links (length (init_lib (put_socket conn blank w)).socks) conn
      (put_socket conn fresh (init_lib (put_socket conn blank w)))
      (update_self (init_lib (put_socket conn blank w)).mem conn (some fresh)) refl,
)

pub abort-behind :
    {B : Type 0} (b : Bool) (f : Unit {0} → M World B) (w : World)
    → f tt w ≡ abort
    → and_then (assert b w) f ≡ abort
abort-behind true f w e = e
abort-behind false f w e = refl

-- ===== src/Zsocket/Preserve/Opening.antt =====
-- `zsocket_init`, `zsocket_connect`, `zsocket_listen`, `zsocket_accept` and the functions on `sdata`
-- of src/zsocket.c keep the invariant.
use libzio.Base.{ℕ, refl, if-both, Bool, true, false, not, is_some, Option, none, some, arith}
use libzio.Effects.{pure, skip}
use libzio.Effects.Keeps.{After, Keeps, branch, split_option, and_then-After}
use libzio.Links.{Links}
use libzio.Zsocket.Invariant.{Inv, Typed, Accounts-client, Accounts-server, Accounts-connection}
use libzio.Zsocket.Open.{
  Callbacks, ConnectAnswer, ListenAnswer, AcceptAnswer, init, init_lib, fresh, blank, connect,
  listen, accept, sdata_alloc, sdata_free,
}
use libzio.Zsocket.Preserve.Closing.{close_now-Keeps}
use libzio.Zsocket.Preserve.Rules.{Respects}
use libzio.Zsocket.State.{
  Ptr, Fun, Zsocket, server, SockaddrIn, World, change, put_socket, watch_read, watch_read_fd,
}
use libzio.Zsocket.Steps.{
  load-After, assert-After, at_fd-After, change-Keeps, watch_read_fd-Inv, status-Inv, others-Inv,
  forget-Inv,
}

-- The world when the sets have been cleared.
abbrev cleared_sets : World → World
cleared_sets w = record w {
  nfds_read = 0;
  fds_read = λ _. false;
  nfds_write = 0;
  fds_write = λ _. false;
  lib_init = true;
}

first_init : (w : World) → Inv w → Inv (cleared_sets w)
first_init w i = record {
  covers_read = λ fd e. cc;
  covers_write = λ fd e. cc;
  accounts = i.accounts;
  typed = i.typed;
}

init_lib-Inv : (w : World) → Inv w → Inv (init_lib w)
init_lib-Inv w i = if-both Inv w.lib_init w (cleared_sets w) i (first_init w i)

pub init-Keeps : (p : Ptr) → Keeps Inv (init p)
unfolding init
init-Keeps p w i = change-Keeps p (λ _. fresh) (λ s t u. refl) _ (init_lib-Inv w i)

-- A socket written twice is the second one.
put_socket-twice-Inv :
    (p : Ptr) (a b : Zsocket) (w : World)
    → Typed b
    → Inv w
    → Inv (put_socket p b (put_socket p a w))
put_socket-twice-Inv p a b w t i = record {
  covers_read = i.covers_read;
  covers_write = i.covers_write;
  accounts = i.accounts;
  typed = λ q s e u. ground (arith, t, i.typed q s);
}

-- The block that `calloc` gives is no socket; `zsocket_init` makes it one.
pub init-blank : (p : Ptr) (w : World) → Inv w → After (λ _. Inv) (init p (put_socket p blank w))
unfolding init change
init-blank p w i =
    load-After (λ _. Inv) p _ (init_lib (put_socket p blank w))
      λ s e.
        if-both (λ v. Inv (put_socket p fresh v)) w.lib_init (put_socket p blank w)
          (cleared_sets (put_socket p blank w)) (put_socket-twice-Inv p blank fresh w (λ u. refl) i)
          (put_socket-twice-Inv p blank fresh _ (λ u. refl) (first_init w i))

pub sdata_free-Keeps : (p : Ptr) → Keeps Inv (sdata_free p)
unfolding sdata_free
sdata_free-Keeps p w i =
    load-After (λ _. Inv) p _ w λ s e. change-Keeps p _ (λ s t. t) _ (others-Inv _ _ _ i)

pub sdata_alloc-Keeps :
    (p : Ptr) (size : ℕ) (granted : Bool) → Keeps Inv (sdata_alloc p size granted)
unfolding sdata_alloc
sdata_alloc-Keeps p size granted w i =
    load-After (λ _. Inv) p _ w
      λ s e. ground (arith, change-Keeps p (λ z. record z { sdata = some size }) (λ z t. t) w i)

module _ (links : Links) where
  open links use {list_add}

  pub connect-Keeps :
      (cbs : Callbacks) (p : Ptr) (addr : SockaddrIn) (cb : Option Fun) (answer : ConnectAnswer)
      → Respects Unit Inv cbs
      → Keeps Inv (connect links cbs p addr cb answer)
  unfolding connect
  connect-Keeps cbs p addr cb answer r w i =
      load-After (λ _. Inv) p _ w
        λ s e.
          assert-After (λ _. Inv) (not s.state.eof) _ w
            λ _.
              split_option Inv answer.new_fd (pure false) _ (λ _ j. j)
                (λ fd _.
                  branch Inv (not answer.connected) _ _ (λ v j. others-Inv _ _ _ j)
                    λ v j.
                      and_then-After (λ _. Inv) (λ _. Inv) _ _ (change-Keeps p _ (λ z t u. cc) v j)
                        λ _ v' j'.
                          and_then-After (λ _. Inv) (λ _. Inv) _ _
                            (split_option Inv cb skip _ (λ _ k. k) (λ f _. r.connected f p) _
                              (others-Inv _ _ _ (status-Inv _ v' (Accounts-client j'.accounts) j')))
                            λ _ _ k. k)
                w i

  -- The socket that `zsocket_listen` writes.
  abbrev served : ℕ → SockaddrIn → Option Fun → Zsocket → Zsocket
  served fd addr cb z = record z {
    fd = some fd;
    laddr = addr;
    type = server;
    s_ops = record z.s_ops { connection_cb = cb };
  }

  pub listen-Keeps :
      (p : Ptr) (addr : SockaddrIn) (cb : Option Fun) (answer : ListenAnswer)
      → Keeps Inv (listen links p addr cb answer)
  unfolding listen watch_read
  listen-Keeps p addr cb answer w i =
      load-After (λ _. Inv) p _ w
        λ s e.
          assert-After (λ _. Inv) (not s.state.eof) _ w
            λ _.
              assert-After (λ _. Inv) (is_some cb) _ w
                λ _.
                  split_option Inv answer.new_fd (pure false) _ (λ _ j. j)
                    (λ fd _.
                      branch Inv (not answer.bound) _ _ (λ v j. others-Inv _ _ _ j)
                        λ v j.
                          and_then-After (λ _. Inv) (λ _. Inv) _ _
                            (change-Keeps p (served fd addr cb) (λ z t u. cc) v j)
                            λ _ v' j'.
                              at_fd-After (λ _. Inv) watch_read_fd (some fd) _ _
                                λ fd' d.
                                  and_then-After (λ _. Inv) (λ _. Inv) _ _
                                    (change-Keeps p _ (λ z t. t) _
                                      (watch_read_fd-Inv fd' _ (
                                        others-Inv _ _ _
                                          (status-Inv _ v' (Accounts-server j'.accounts) j'))))
                                    λ _ _ k. k)
                    w i

  pub accept-Keeps : (p : Ptr) (answer : AcceptAnswer) → Keeps Inv (accept links p answer)
  unfolding accept
  accept-Keeps p answer w i =
      load-After (λ _. Inv) p _ w
        λ s e.
          assert-After (λ _. Inv) (not s.state.eof) _ w
            λ _.
              split_option Inv answer.block (pure none) _ (λ _ j. j)
                (λ conn _ v j.
                  and_then-After (λ _. Inv) (λ _. Inv) _ _ (init-blank conn v j)
                    λ _ v' j'.
                      split_option Inv answer.new_fd _ _
                        (λ u k.
                          and_then-After (λ _. Inv) (λ _. Inv) _ _ (close_now-Keeps links conn u k)
                            λ _ u' k'. others-Inv _ _ _ (forget-Inv conn k'))
                        (λ fd _ u k.
                          and_then-After (λ _. Inv) (λ _. Inv) _ _
                            (change-Keeps conn _ (λ z t e'. cc) u k)
                            λ _ u' k'.
                              others-Inv _ _ _
                                (status-Inv _ u' (Accounts-connection k'.accounts) k'))
                        v' j')
                w i

-- ===== src/Zsocket/Client.antt =====
-- Scripts of calls that an application makes of src/zsocket.h, from the start of the program on.
use libzio.Base.{ℕ, Bool, false, Option, none, List, [], ◌∷◌, refl}
use libzio.Base.Int.{pos, ◌+ℤ◌}
use libzio.Effects.{M, ◌>>◌, ignore, skip, modify}
use libzio.Effects.Keeps.{After, Keeps, and_then-After}
use libzio.Links.{Links}
use libzio.Zsocket.Close.{close}
use libzio.Zsocket.Invariant.{Inv}
use libzio.Zsocket.Io.{Memory, read_start, read_stop, write}
use libzio.Zsocket.Loop.{PollAnswer, loop}
use libzio.Zsocket.Open.{
  Callbacks, ConnectAnswer, ListenAnswer, AcceptAnswer, blank, init, connect, listen, accept,
  sdata_alloc, sdata_free,
}
use libzio.Zsocket.Preserve.Closing.{close-Keeps}
use libzio.Zsocket.Preserve.Opening.{
  init-blank, connect-Keeps, listen-Keeps, accept-Keeps, sdata_alloc-Keeps, sdata_free-Keeps,
}
use libzio.Zsocket.Preserve.Rules.{Respects, Rules-Inv}
use libzio.Zsocket.Preserve.Requests.{read_start-Keeps, read_stop-Keeps, write-Keeps}
use libzio.Zsocket.Preserve.Turn.{loop-Keeps}
use libzio.Zsocket.State.{Ptr, Fun, SockaddrIn, Status, World, put_socket}

-- The world in which a program starts: nothing is watched, counted or allocated.
abbrev pub zero_status : Status
zero_status = record {
  nr_current = pos 0;
  nr_total = pos 0;
  nr_closed = pos 0;
  nr_current_client = pos 0;
  nr_current_server = pos 0;
  nr_current_connection = pos 0;
}

abbrev pub start : World
start = record {
  lib_init = false;
  in_looping = false;
  socks = [];
  nfds_read = 0;
  fds_read = λ _. false;
  nfds_write = 0;
  fds_write = λ _. false;
  status = zero_status;
  mem = λ _. none;
  events = [];
}

-- A call, with what the system answers. `declare` is a new `struct zsocket` and `zsocket_init` on it.
pub data Call : Type 0 where
  declare : Ptr → Call
  to_connect : Ptr → SockaddrIn → Option Fun → ConnectAnswer → Call
  to_listen : Ptr → SockaddrIn → Option Fun → ListenAnswer → Call
  to_accept : Ptr → AcceptAnswer → Call
  to_close : Ptr → Option Fun → Call
  to_read_start : Ptr → Option Fun → Call
  to_read_stop : Ptr → Call
  to_write : Ptr → List ℕ → Memory → Call
  to_sdata_alloc : Ptr → ℕ → Bool → Call
  to_sdata_free : Ptr → Call
  to_loop : ℕ → PollAnswer → (Ptr → ℕ) → Call

module _ (links : Links) (cbs : Callbacks) where
  perform : Call → M World (Unit {0})
  perform (declare p) = do modify (put_socket p blank); init p
  perform (to_connect p addr cb answer) = ignore (connect links cbs p addr cb answer)
  perform (to_listen p addr cb answer) = ignore (listen links p addr cb answer)
  perform (to_accept p answer) = ignore (accept links p answer)
  perform (to_close p cb) = close links p cb
  perform (to_read_start p cb) = read_start p cb
  perform (to_read_stop p) = read_stop p
  perform (to_write p buf m) = ignore (write p buf m)
  perform (to_sdata_alloc p size granted) = ignore (sdata_alloc p size granted)
  perform (to_sdata_free p) = sdata_free p
  perform (to_loop timeout answer clock) = ignore (loop links cbs timeout answer clock)

  unfoldable pub script : List Call → M World (Unit {0})
  unfolding perform
  script [] = skip
  script (c ∷ cs) = do perform c; script cs

-- A call whose result is not used.
ignored : {A : Type 0} (m : M World A) → Keeps Inv m → Keeps Inv (ignore m)
ignored m h w i = and_then-After (λ _. Inv) (λ _. Inv) (m w) _ (h w i) λ _ _ j. j

module _ (links : Links) (cbs : Callbacks) (r : Respects Unit Inv cbs) where
  perform-Keeps : (c : Call) → Keeps Inv (perform links cbs c)
  unfolding perform
  perform-Keeps (declare p) w i = init-blank p w i
  perform-Keeps (to_connect p addr cb answer) w i =
      ignored _ (connect-Keeps links cbs p addr cb answer r) w i
  perform-Keeps (to_listen p addr cb answer) w i =
      ignored _ (listen-Keeps links p addr cb answer) w i
  perform-Keeps (to_accept p answer) w i = ignored _ (accept-Keeps links p answer) w i
  perform-Keeps (to_close p cb) w i = close-Keeps links p cb w i
  perform-Keeps (to_read_start p cb) w i = read_start-Keeps Rules-Inv p cb w i
  perform-Keeps (to_read_stop p) w i = read_stop-Keeps Rules-Inv p w i
  perform-Keeps (to_write p buf m) w i = ignored _ (write-Keeps Rules-Inv p buf m) w i
  perform-Keeps (to_sdata_alloc p size granted) w i =
      ignored _ (sdata_alloc-Keeps p size granted) w i
  perform-Keeps (to_sdata_free p) w i = sdata_free-Keeps p w i
  perform-Keeps (to_loop timeout answer clock) w i =
      ignored _ (loop-Keeps links cbs r timeout answer clock) w i

  script-Keeps : (cs : List Call) → Keeps Inv (script links cbs cs)
  unfolding script
  script-Keeps [] w i = i
  script-Keeps (c ∷ cs) w i =
      and_then-After (λ _. Inv) (λ _. Inv) _ _ (perform-Keeps c w i) λ _ v j. script-Keeps cs v j

start-Inv : Inv start
unfolding ◌+ℤ◌
start-Inv = record {
  covers_read = λ fd e. cc;
  covers_write = λ fd e. cc;
  accounts = record { current = refl; total = refl };
  typed = λ p s e. cc;
}

-- Whatever calls an application makes from the start of the program on, whatever the system
-- answers, and whatever its callbacks do, as long as each of them keeps the invariant: if the
-- calls return, then the counters of `zsocket_status` add up, the bound that `select` gets lies
-- above every descriptor of its set, and an untyped socket has no descriptor.
pub script-Inv :
    (links : Links) (cbs : Callbacks) (cs : List Call)
    → Respects Unit Inv cbs
    → After (λ _. Inv) (script links cbs cs start)
script-Inv links cbs cs r = script-Keeps links cbs r cs start start-Inv

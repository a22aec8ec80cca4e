-- ===== src/Zsocket/Preserve/Rules.antt =====
-- What an invariant of src/zsocket.c must be kept by, for the functions that read and write to keep
-- it too. `bad` is what is known if a run is stuck.
use libzio.Base.{ℕ, Option, none, some, List}
use libzio.Base.Int.{ℤ}
use libzio.Effects.{M}
use libzio.Effects.Keeps.{KeepsIn}
use libzio.Qbuf.{Qbuf}
use libzio.Zsocket.Invariant.{Inv, Typed}
use libzio.Zsocket.Io.{at_buf}
use libzio.Zsocket.Open.{Callbacks}
use libzio.Zsocket.State.{
  change, Ptr, Fun, Zsocket, World, watch_read_fd, unwatch_read_fd, watch_write_fd,
}
use libzio.Zsocket.Steps.{change-Keeps, watch_read_fd-Inv, unwatch_read_fd-Inv, watch_write_fd-Inv}

-- A change of a field other than the type and the descriptor.
abbrev pub Inner : (Zsocket → Zsocket) → Type 0
Inner f = (s : Zsocket) → Typed s → Typed (f s)

pub record Rules (bad : Type 0) (I : World → Type 0) : Type 0 where
  pub changing : (p : Ptr) (f : Zsocket → Zsocket) → Inner f → KeepsIn bad I (change p f)
  pub watched_read : (fd : ℕ) (w : World) → I w → I (watch_read_fd fd w)
  pub unwatched_read : (fd : ℕ) (w : World) → I w → I (unwatch_read_fd fd w)
  pub watched_write : (fd : ℕ) (w : World) → I w → I (watch_write_fd fd w)

pub at_buf-Keeps :
    (bad : Type 0) (I : World → Type 0) {A : Type 0} (o : Option Qbuf) (f : Qbuf → M World A)
    → ((q : Qbuf) → KeepsIn bad I (f q))
    → KeepsIn bad I (at_buf o f)
at_buf-Keeps bad I none f h w i = tt
at_buf-Keeps bad I (some q) f h w i = h q w i

-- What is asked of the functions of the application: each of them keeps the invariant.
pub record Respects (bad : Type 0) (I : World → Type 0) (cbs : Callbacks) : Type 0 where
  pub connected : (f : Fun) (p : Ptr) → KeepsIn bad I (cbs.on_connected f p)
  pub connection : (f : Fun) (p : Ptr) → KeepsIn bad I (cbs.on_connection f p)
  pub closed : (f : Fun) (p : Ptr) → KeepsIn bad I (cbs.on_close f p)
  pub received :
      (f : Fun) (p : Ptr) (bytes : List ℕ) (len : ℤ) → KeepsIn bad I (cbs.on_read f p bytes len)

pub Rules-Inv : Rules Unit Inv
Rules-Inv = record {
  changing = change-Keeps;
  watched_read = watch_read_fd-Inv;
  unwatched_read = unwatch_read_fd-Inv;
  watched_write = watch_write_fd-Inv;
}

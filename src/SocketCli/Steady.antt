-- ===== src/SocketCli/Steady.antt =====
-- The calls of src/socket/socket_cli.c that leave a client as it is but for its error code and its
-- debug switch.
use libzio.Base.{
  ℕ, zero, suc, Bool, true, false, not, ◌||◌, Option, none, some, List, [], ◌∷◌, take, drop, length,
  leb, ◌==◌,
}
use libzio.Effects.{M, ◌>>=◌, ◌>>◌, pure, modify, defined}
use libzio.Effects.Keeps.{After, Keeps, bind, branch, split_option}
use libzio.SocketCli.State.{
  SocketCli, CliWorld, CliEvent, transmitted, load_cli, change_cli, log_event,
}
use libzio.SocketCli.Tcp.{
  RecvRound, set_error, in_set, select_out, read_tcp, read_all_rounds, read_tcp_all, write_rounds,
  write_tcp, clean_rounds, clean_tcp, socket_set_debug,
}

-- A property of a client that does not depend on its error code and its debug switch.
pub record IsSteady (P : Option SocketCli → Type 0) : Type 0 where
  pub set_error_keeps : (e : ℕ) (c : SocketCli) → P (some c) → P (some (set_error e c))
  pub set_debug_keeps : (b : Bool) (c : SocketCli) → P (some c) → P (some (record c { debug = b }))

module _ {P : Option SocketCli → Type 0} (steady : IsSteady P) where
  abbrev I : CliWorld → Type 0
  I w = P w.client

  on_client :
      {A : Type 0} (f : SocketCli → M CliWorld A) (o : Option SocketCli) (es : List CliEvent)
      → ((c : SocketCli) → Keeps I (f c))
      → P o
      → After (λ _. I) ((load_cli >>= f) (record { client = o; cli_events = es }))
  unfolding load_cli
  on_client f none es h p = tt
  on_client f (some c) es h p = h c (record { client = some c; cli_events = es }) p

  with_client :
      {A : Type 0} (f : SocketCli → M CliWorld A)
      → ((c : SocketCli) → Keeps I (f c))
      → Keeps I (load_cli >>= f)
  with_client f h w p = on_client f w.client w.cli_events h p

  change-Keeps :
      (f : SocketCli → SocketCli)
      → ((c : SocketCli) → P (some c) → P (some (f c)))
      → Keeps I (change_cli f)
  unfolding change_cli load_cli
  change-Keeps f h w p = changed w.client w.cli_events p
    where
      changed :
          (o : Option SocketCli) (es : List CliEvent)
          → P o
          → After (λ _. I) (change_cli f (record { client = o; cli_events = es }))
      changed none es p = tt
      changed (some c) es p = h c p

  pub set_debug-Keeps : (b : Bool) → Keeps I (socket_set_debug b)
  unfolding socket_set_debug
  set_debug-Keeps b = change-Keeps _ (steady.set_debug_keeps b)

  either :
      {A : Type 0} (b : Bool) (m n : M CliWorld A)
      → Keeps I m
      → Keeps I n
      → Keeps I (elim b as (λ _. M CliWorld A) [ false ↦ m | true ↦ n ])
  either false m n h k = h
  either true m n h k = k

  failed : {A : Type 0} (e : ℕ) (a : A) → Keeps I (do change_cli (set_error e); pure a)
  failed e a = bind I _ _ (change-Keeps _ (steady.set_error_keeps e)) λ _ w p. p

  defined-Keeps : (b : Bool) → Keeps I (defined b)
  defined-Keeps true w p = p
  defined-Keeps false w p = tt

  select_out-Keeps : (timeout : ℕ) (answer : RecvRound) → Keeps I (select_out timeout answer)
  unfolding select_out
  select_out-Keeps timeout answer =
      branch I (timeout == 0) _ _ (λ w p. p)
        (with_client _ λ c.
          bind I _ _ (defined-Keeps (in_set c.backend_data.socket_id))
            λ _. branch I answer.timed_out _ _ (failed answer.errno false) (λ w p. p))

  pub read_tcp-Keeps :
      (len timeout : ℕ) (answer : RecvRound) → Keeps I (read_tcp len timeout answer)
  unfolding read_tcp
  read_tcp-Keeps len timeout answer = with_client _ λ c.
      branch I (not c.is_connect || c.async) _ _ (λ w p. p)
        (bind I _ _ (select_out-Keeps timeout answer) λ ready.
          branch I (not ready) _ _ (λ w p. p)
            (split_option I answer.incoming _ _ (failed answer.errno _) λ bytes e w p. p))

  sent-Keeps :
      (sends : ℕ → Option ℕ) (fuel i b : ℕ) (rest : List ℕ) (n : Option ℕ)
      → ((m : ℕ) → Keeps I (write_rounds sends fuel (suc i) (drop m rest)))
      → Keeps I (elim n as (λ _. M CliWorld Bool) [
        | none ↦ pure false
        | some zero ↦ pure false
        | some (suc n) ↦ do
          modify (log_event (transmitted (take (suc n) (b ∷ rest))))
          write_rounds sends fuel (suc i) (drop (suc n) (b ∷ rest))
      ])
  sent-Keeps sends fuel i b rest none go w p = p
  sent-Keeps sends fuel i b rest (some zero) go w p = p
  sent-Keeps sends fuel i b rest (some (suc n)) go w p =
      go n (log_event (transmitted (take (suc n) (b ∷ rest))) w) p

  write_rounds-Keeps :
      (sends : ℕ → Option ℕ) (fuel i : ℕ) (rest : List ℕ) → Keeps I (write_rounds sends fuel i rest)
  unfolding write_rounds
  write_rounds-Keeps sends fuel i [] = λ w p. p
  write_rounds-Keeps sends zero i (b ∷ rest) = λ w p. tt
  write_rounds-Keeps sends (suc fuel) i (b ∷ rest) =
      sent-Keeps sends fuel i b rest (sends i)
        λ m. write_rounds-Keeps sends fuel (suc i) (drop m rest)

  pub write_tcp-Keeps :
      (buf : List ℕ) (sends : ℕ → Option ℕ) (errno : ℕ) → Keeps I (write_tcp buf sends errno)
  unfolding write_tcp
  write_tcp-Keeps buf sends errno = with_client _ λ c.
      branch I (not c.is_connect) _ _ (λ w p. p)
        (bind I _ _ (write_rounds-Keeps sends (length buf) 0 buf)
          λ done. branch I done _ _ (λ w p. p) (failed errno none))

  read_all_rounds-Keeps :
      (rounds : ℕ → RecvRound) (fuel i len timeout : ℕ) (buf : List ℕ)
      → Keeps I (read_all_rounds rounds fuel i len timeout buf)
  unfolding read_all_rounds
  read_all_rounds-Keeps rounds zero i len timeout buf =
      branch I (leb len (length buf)) _ _ (λ w p. p) (λ w p. tt)
  read_all_rounds-Keeps rounds (suc fuel) i len timeout buf =
      branch I (leb len (length buf)) _ _ (λ w p. p)
        (bind I _ _ (select_out-Keeps timeout (rounds i)) λ ready.
          either ready _ _ (λ w p. p)
            (split_option I (rounds i).incoming _ _ (λ w p. p)
              λ bytes e. read_all_rounds-Keeps rounds fuel (suc i) len timeout _))

  pub read_tcp_all-Keeps :
      (fuel len timeout : ℕ) (rounds : ℕ → RecvRound)
      → Keeps I (read_tcp_all fuel len timeout rounds)
  unfolding read_tcp_all
  read_tcp_all-Keeps fuel len timeout rounds = with_client _ λ c.
      branch I (not c.is_connect || c.async) _ _ (λ w p. p)
        (bind I _ _ (select_out-Keeps timeout (rounds 0)) λ ready.
          branch I (not ready) _ _ (λ w p. p)
            (split_option I (rounds 0).incoming _ _ (failed (rounds 0).errno _) λ bytes e.
              bind I _ _ (read_all_rounds-Keeps rounds fuel 1 len timeout (take len bytes))
                λ buf w p. p))

  clean_rounds-Keeps : (empty : ℕ → Bool) (fuel i : ℕ) → Keeps I (clean_rounds empty fuel i)
  unfolding clean_rounds
  clean_rounds-Keeps empty zero i = λ w p. tt
  clean_rounds-Keeps empty (suc fuel) i =
      either (empty i) _ _ (clean_rounds-Keeps empty fuel (suc i)) (λ w p. p)

  pub clean_tcp-Keeps : (fuel : ℕ) (empty : ℕ → Bool) → Keeps I (clean_tcp fuel empty)
  unfolding clean_tcp
  clean_tcp-Keeps fuel empty = with_client _ λ c.
      branch I (not c.is_connect) _ _ (λ w p. p)
        (branch I (not c.async) _ _ (λ w p. p)
          (bind I _ _ (defined-Keeps (in_set c.backend_data.socket_id))
            λ _. bind I _ _ (clean_rounds-Keeps empty fuel 0) λ _ w p. p))

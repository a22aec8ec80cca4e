-- ===== src/SocketCli/Streams.antt =====
-- The loops of src/socket/socket_cli.c that write a buffer and fill one.
use libzio.Base.{
  subst, ℕ, zero, suc, ◌+◌, ◌≤◌, ◌<◌, ◌≡◌, ◌⊎◌, inl, inr, refl, ap, sym, ◌∙◌, Bool, true, false,
  Option, none, some, List, [], ◌∷◌, ◌++◌, append_assoc, append-nil, arith, length, length-append,
  length-drop, take, drop, take-append_ge, if◌then◌else◌,
}
use libzio.Effects.{Outcome, ok, fault, M, pure, modify, ◌>>◌}
use libzio.Effects.Keeps.{Returns, Returns-weaker, Returns-and_then}
use libzio.SocketCli.State.{
  SocketCli, CliWorld, CliEvent, transmitted, sys_socket, sys_close, join_thread, notified,
  load_cli, change_cli, log_event,
}
use libzio.SocketCli.Tcp.{write_rounds, write_tcp, set_error}

pub load_cli-ok : (w : CliWorld) {s : SocketCli} → w.client ≡ some s → load_cli w ≡ ok (s, w)
unfolding load_cli
load_cli-ok w e = ap (by_client w) e
  where
    by_client : CliWorld → Option SocketCli → Outcome (SocketCli × CliWorld)
    by_client w c = elim c [ none ↦ fault | some s ↦ ok (s, w) ]

pub change_cli-ok :
    (f : SocketCli → SocketCli) (w : CliWorld) {s : SocketCli}
    → w.client ≡ some s
    → change_cli f w ≡ ok (tt, record w { client = some (f s) })
unfolding change_cli
change_cli-ok f w e = rw (load_cli-ok w e) refl

-- The bytes that have been sent, in order.
abbrev pub wire : List CliEvent → List ℕ
wire [] = []
wire (transmitted bytes ∷ es) = wire es ++ bytes
wire (sys_socket id ∷ es) = wire es
wire (sys_close id ∷ es) = wire es
wire (join_thread ∷ es) = wire es
wire (notified f bytes ∷ es) = wire es

-- All of `rest` has been sent, or a part of it that is not all.
data Written (rest before after : List ℕ) : Bool → Type 0 where
  all_of_it : after ≡ before ++ rest → Written rest before after true
  a_part :
      (n : ℕ) → n < length rest → after ≡ before ++ take n rest → Written rest before after false

take-drop_append : (n : ℕ) (l : List ℕ) → take n l ++ drop n l ≡ l
take-drop_append zero l = refl
take-drop_append (suc n) [] = refl
take-drop_append (suc n) (x ∷ l) = ap (λ l. x ∷ l) (take-drop_append n l)

-- What is written of the rest, behind `sent`, is written of the whole.
Written-behind :
    (sent rest before after : List ℕ) (done : Bool)
    → Written rest (before ++ sent) after done
    → Written (sent ++ rest) before after done
Written-behind sent rest before after true (all_of_it e) =
    all_of_it (e ∙ append_assoc before sent rest)
Written-behind sent rest before after false (a_part n h e) =
    a_part (length sent + n) (omega (arith, length-append sent rest)) (
      e
      ∙ append_assoc before sent (take n rest)
      ∙ ap (λ l. before ++ l) (sym (take-append_ge (length sent + n) n sent rest (omega arith))))

-- What a run writes of `rest`, which leaves the client as it is.
abbrev Writes : List ℕ → CliWorld → Bool → CliWorld → Type 0
Writes rest w done v =
    Written rest (wire w.cli_events) (wire v.cli_events) done × (v.client ≡ w.client)

send-Writes :
    (sends : ℕ → Option ℕ) (fuel i b : ℕ) (rest : List ℕ) (w : CliWorld) (o : Option ℕ)
    → ((n : ℕ)
        → let w1 = log_event (transmitted (take (suc n) (b ∷ rest))) w in
          Returns (Writes (drop n rest) w1) (write_rounds sends fuel (suc i) (drop n rest) w1))
    → Returns (Writes (b ∷ rest) w) (
        (elim o as (λ _. M CliWorld Bool) [
          | none ↦ pure false
          | some zero ↦ pure false
          | some (suc n) ↦ do
            modify (log_event (transmitted (take (suc n) (b ∷ rest))))
            write_rounds sends fuel (suc i) (drop (suc n) (b ∷ rest))
        ])
          w)
send-Writes sends fuel i b rest w none go = (a_part 0 (omega arith) (sym (append-nil _)), refl)
send-Writes sends fuel i b rest w (some zero) go =
    (a_part 0 (omega arith) (sym (append-nil _)), refl)
send-Writes sends fuel i b rest w (some (suc n)) go =
    let sent = take (suc n) (b ∷ rest) in
    let w1 = log_event (transmitted sent) w in
    Returns-weaker (Writes (drop n rest) w1) (Writes (b ∷ rest) w)
      (write_rounds sends fuel (suc i) (drop n rest) w1) (go n)
      λ done v r. (
        subst (λ l. Written l (wire w.cli_events) (wire v.cli_events) done)
            (take-drop_append (suc n) (b ∷ rest))
            (Written-behind sent (drop n rest) (wire w.cli_events) (wire v.cli_events) done r.0),
        r.1,
      )

write_rounds-Writes :
    (sends : ℕ → Option ℕ) (fuel i : ℕ) (rest : List ℕ) (w : CliWorld)
    → length rest ≤ fuel
    → Returns (Writes rest w) (write_rounds sends fuel i rest w)
unfolding write_rounds
write_rounds-Writes sends fuel i [] w h = (all_of_it (sym (append-nil _)), refl)
write_rounds-Writes sends zero i (b ∷ rest) w h = absurd (omega arith)
write_rounds-Writes sends (suc fuel) i (b ∷ rest) w h =
    send-Writes sends fuel i b rest w (sends i) λ n.
      write_rounds-Writes sends fuel (suc i) (drop n rest)
        (log_event (transmitted (take (suc n) (b ∷ rest))) w) (omega (arith, length-drop n rest))

-- `__write_tcp` on a connected client returns, within as many rounds as there are bytes. Either it
-- returns the length of the buffer and just its bytes have been sent, in their order, or it returns -1
-- and those sent are a part of it from its start on, and not all.
pub write_tcp_lem :
    (buf : List ℕ) (sends : ℕ → Option ℕ) (errno : ℕ) (w : CliWorld) {s : SocketCli}
    → w.client ≡ some s
    → s.is_connect ≡ true
    → Returns
        (λ count v.
          ((count ≡ some (length buf)) × (wire v.cli_events ≡ wire w.cli_events ++ buf))
          ⊎ ((count ≡ none)
              × (n : ℕ) × (n < length buf)
              × (wire v.cli_events ≡ wire w.cli_events ++ take n buf)))
        (write_tcp buf sends errno w)
unfolding write_tcp
write_tcp_lem buf sends errno w {s} at connected =
    rw (load_cli-ok w at, connected)
      (Returns-and_then (Writes buf w) _ (write_rounds sends (length buf) 0 buf w) _
        (write_rounds-Writes sends (length buf) 0 buf w (omega arith))
        λ done v r. finished done v r.0 (r.1 ∙ at))
  where
    finished :
        (done : Bool) (v : CliWorld)
        → Written buf (wire w.cli_events) (wire v.cli_events) done
        → v.client ≡ some s
        → Returns
            (λ count v.
              ((count ≡ some (length buf)) × (wire v.cli_events ≡ wire w.cli_events ++ buf))
              ⊎ ((count ≡ none)
                  × (n : ℕ) × (n < length buf)
                  × (wire v.cli_events ≡ wire w.cli_events ++ take n buf)))
            ((if done
                then pure (some (length buf))
                else (do change_cli (set_error errno); pure none))
              v)
    finished true v (all_of_it e) c = inl (refl, e)
    finished false v (a_part n h e) c =
        rw (change_cli-ok (set_error errno) v c) (inr (refl, n, h, e))

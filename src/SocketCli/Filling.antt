-- ===== src/SocketCli/Filling.antt =====
-- The loop of `__read_tcp_all` in src/socket/socket_cli.c.
use libzio.Base.{
  ◌⊎◌, ℕ, zero, suc, ◌+◌, ◌-◌, ◌≤◌, ◌<◌, ◌≡◌, ◌≢◌, refl, ap, ◌∙◌, Bool, true, false, not, ◌||◌,
  Option, none, some, List, [], ◌∷◌, ◌++◌, arith, length, length-append, length-take, take, min,
  if◌then◌else◌, leb, ◌==◌, Bool-cases, inl, inr,
}
use libzio.Effects.{ok, M, pure, ◌>>◌, ◌>>=◌}
use libzio.Base.Int.{ℤ, pos, negsuc}
use libzio.Effects.Keeps.{Returns, Returns-and_then}
use libzio.SocketCli.State.{SocketCli, CliWorld, change_cli}
use libzio.SocketCli.Streams.{load_cli-ok, change_cli-ok}
use libzio.SocketCli.Tcp.{RecvRound, select_out, in_set, read_all_rounds, read_tcp_all, set_error}

-- `select` is not called, or does not run into its timeout.
abbrev go_on : ℕ → RecvRound → Bool
go_on timeout answer = (timeout == 0) || not answer.timed_out

module _ (w : CliWorld) {s : SocketCli} (at : w.client ≡ some s)
    (id : in_set s.backend_data.socket_id ≡ true) where
  select_out-ok :
      (timeout : ℕ) (answer : RecvRound)
      → select_out timeout answer w ≡ (
          if go_on timeout answer
          then ok (true, w)
          else ok (false, record w { client = some (set_error answer.errno s) }))
  unfolding select_out
  select_out-ok timeout answer = elim (Bool-cases (timeout == 0)) [
    | inl e ↦ rw e refl
    | inr e ↦
        rw (e, load_cli-ok w at, id)
          (elim (Bool-cases answer.timed_out) [
            | inl t ↦ rw (t, change_cli-ok (set_error answer.errno) w at) refl
            | inr t ↦ rw t refl
          ])
  ]

  module _ (rounds : ℕ → RecvRound) (len timeout : ℕ) where
    -- One round that is not the last.
    round-Returns :
        (fuel i : ℕ) (buf : List ℕ) (o : Option (List ℕ))
        → o ≢ some []
        → length buf < len
        → len ≤ suc fuel + length buf
        → ((buf' : List ℕ)
            → length buf' ≤ len
            → len ≤ fuel + length buf'
            → Returns
                (λ all v. length all ≤ len)
                (read_all_rounds rounds fuel (suc i) len timeout buf' w))
        → Returns
            (λ all v. length all ≤ len)
            ((elim o as (λ _. M CliWorld (List ℕ)) [
              | none ↦ pure buf
              | some bytes ↦
                  read_all_rounds rounds fuel
                    (suc i)
                    len
                    timeout
                    (buf ++ take (len - length buf) bytes)
            ])
              w)
    round-Returns fuel i buf none some_ h k go = omega arith
    round-Returns fuel i buf (some []) some_ h k go = absurd (some_ refl)
    round-Returns fuel i buf (some (b ∷ bytes)) some_ h k go =
        let n = len - length buf in
        let more : length (buf ++ take n (b ∷ bytes)) ≡ length buf + min n (suc (length bytes)) =
          length-append buf (take n (b ∷ bytes))
          ∙ ap (λ k. length buf + k) (length-take n (b ∷ bytes)) in
        go _ (omega (arith, more)) (omega (arith, more))

    read_all_rounds-Returns :
        (fuel i : ℕ) (buf : List ℕ)
        → ((j : ℕ) → (rounds j).incoming ≢ some [])
        → length buf ≤ len
        → len ≤ fuel + length buf
        → Returns (λ all v. length all ≤ len) (read_all_rounds rounds fuel i len timeout buf w)
    unfolding read_all_rounds
    read_all_rounds-Returns zero i buf open_ h k = elim (Bool-cases (leb len (length buf))) [
      | inl e ↦ rw e h
      | inr e ↦ absurd (ground arith)
    ]
    read_all_rounds-Returns (suc fuel) i buf open_ h k = elim (Bool-cases (leb len (length buf))) [
      | inl e ↦ rw e h
      | inr e ↦
          rw (e, select_out-ok timeout (rounds i))
            (elim (Bool-cases (go_on timeout (rounds i))) [
              | inl g ↦ rw g (
                  round-Returns fuel i buf (rounds i).incoming (open_ i) (ground arith) k
                    λ buf' h' k'. read_all_rounds-Returns fuel (suc i) buf' open_ h' k')
              | inr g ↦ rw g h
            ])
    ]

  -- As long as `recv` does not give 0, which it does when the peer has closed the connection,
  -- `__read_tcp_all` on a connected client without a thread, whose descriptor fits into an
  -- `fd_set`, returns after at most `len` rounds of its loop: either -1, or a count of at most
  -- `len` bytes, which it has stored.
  pub read_tcp_all_lem :
      (rounds : ℕ → RecvRound) (len timeout : ℕ)
      → s.is_connect ≡ true
      → s.async ≡ false
      → ((j : ℕ) → (rounds j).incoming ≢ some [])
      → Returns
          (λ r v. (r ≡ (negsuc 0, [])) ⊎ ((r.0 ≡ pos (length r.1)) × (length r.1 ≤ len)))
          (read_tcp_all len len timeout rounds w)
  unfolding read_tcp_all
  read_tcp_all_lem rounds len timeout connected sync open_ =
      rw (load_cli-ok w at, connected, sync, select_out-ok timeout (rounds 0))
        (elim (Bool-cases (go_on timeout (rounds 0))) [
          | inl g ↦ rw g (by_incoming (rounds 0).incoming)
          | inr g ↦ rw g (inl refl)
        ])
    where
      by_incoming :
          (o : Option (List ℕ))
          → Returns
              (λ r v. (r ≡ (negsuc 0, [])) ⊎ ((r.0 ≡ pos (length r.1)) × (length r.1 ≤ len)))
              ((elim o as (λ _. M CliWorld (ℤ × List ℕ)) [
                | none ↦ do change_cli (set_error (rounds 0).errno); pure (negsuc 0, [])
                | some bytes ↦ do
                  buf ← read_all_rounds rounds len 1 len timeout (take len bytes)
                  pure (pos (length buf), buf)
              ])
                w)
      by_incoming none = rw (change_cli-ok (set_error (rounds 0).errno) w at) (inl refl)
      by_incoming (some bytes) =
          Returns-and_then (λ all v. length all ≤ len) _
            (read_all_rounds rounds len 1 len timeout (take len bytes) w) _
            (read_all_rounds-Returns rounds len timeout len 1 (take len bytes) open_
              (omega (arith, length-take len bytes)) (omega arith))
            λ all v h. inr (refl, h)

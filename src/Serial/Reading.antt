-- ===== src/Serial/Reading.antt =====
-- The loop of `unix_serial_read` in src/serial/serial_unix.c.
use libzio.Base.{
  ℕ, zero, suc, ◌+◌, ◌-◌, ◌≤◌, ◌<◌, ◌≡◌, inl, inr, ap, ◌∙◌, refl, Bool, true, false, not, ◌&&◌,
  Option, none, some, List, [], ◌∷◌, ◌++◌, arith, length, length-append, length-take, leb, min,
  take, Bool-cases,
}
use libzio.Base.Int.{ℤ, pos, negsuc}
use libzio.Serial.Unix.{
  ReadRound, ReadEnd, left, returned, read_rounds, set_timeout, not_negative, temp_size,
}

-- The loop is through: it has read at most `len` bytes, and those asked for if it leaves by its test.
-- Else a read has failed or given nothing, or `select` has run into a timeout that is not 0.
pub data Through (rounds : ℕ → ReadRound) (len : ℕ) (mtimeout : ℤ) : Option ReadEnd → Type 0 where
  by_return : (buf : List ℕ) → length buf ≤ len → Through rounds len mtimeout (some (returned buf))
  by_test : (buf : List ℕ) → length buf ≡ len → Through rounds len mtimeout (some (left buf))
  by_timeout :
      (buf : List ℕ) (i ms : ℕ)
      → length buf < len
      → mtimeout ≡ pos (suc ms)
      → (rounds i).timed_out ≡ true
      → Through rounds len mtimeout (some (left buf))

-- The test of the code holds only when `select` has run into a timeout.
timeout_lem :
    (mtimeout : ℤ) (timed_out : Bool)
    → (not_negative mtimeout && not (set_timeout mtimeout timed_out)) ≡ true
    → (ms : ℕ) × (mtimeout ≡ pos (suc ms)) × (timed_out ≡ true)
unfolding set_timeout
timeout_lem (negsuc n) b e = absurd cc
timeout_lem (pos zero) b e = absurd cc
timeout_lem (pos (suc n)) true e = (n, refl, refl)
timeout_lem (pos (suc n)) false e = absurd cc

-- One round that is not the last.
incoming-Through :
    (rounds : ℕ → ReadRound) (mtimeout : ℤ) (fuel i len : ℕ) (buf : List ℕ) (o : Option (List ℕ))
    → length buf < len
    → len ≤ suc fuel + length buf
    → ((buf' : List ℕ)
        → length buf' ≤ len
        → len ≤ fuel + length buf'
        → Through rounds len mtimeout (read_rounds rounds mtimeout fuel (suc i) len buf'))
    → Through rounds len mtimeout (elim o [
      | none ↦ some (returned buf)
      | some [] ↦ some (returned buf)
      | some (b ∷ bytes) ↦
          read_rounds rounds mtimeout fuel
            (suc i)
            len
            (buf ++ take (min (len - length buf) temp_size) (b ∷ bytes))
    ])
incoming-Through rounds mtimeout fuel i len buf none h k go = by_return buf (omega arith)
incoming-Through rounds mtimeout fuel i len buf (some []) h k go = by_return buf (omega arith)
incoming-Through rounds mtimeout fuel i len buf (some (b ∷ bytes)) h k go =
    let n = min (len - length buf) temp_size in
    let more : length (buf ++ take n (b ∷ bytes)) ≡ length buf + min n (suc (length bytes)) =
      length-append buf (take n (b ∷ bytes))
      ∙ ap (λ k. length buf + k) (length-take n (b ∷ bytes)) in
    go _ (omega (arith, more)) (omega (arith, more))

read_rounds-Through :
    (rounds : ℕ → ReadRound) (mtimeout : ℤ) (fuel i len : ℕ) (buf : List ℕ)
    → length buf ≤ len
    → len ≤ fuel + length buf
    → Through rounds len mtimeout (read_rounds rounds mtimeout fuel i len buf)
unfolding read_rounds
read_rounds-Through rounds mtimeout zero i len buf h k = elim (Bool-cases (leb len (length buf))) [
  | inl e ↦ rw e (by_test buf (ground arith))
  | inr e ↦ absurd (ground arith)
]
read_rounds-Through rounds mtimeout (suc fuel) i len buf h k =
    elim (Bool-cases (leb len (length buf))) [
      | inl e ↦ rw e (by_test buf (ground arith))
      | inr e ↦
          let short : length buf < len = ground arith in
          elim (Bool-cases
            (not_negative mtimeout && not (set_timeout mtimeout (rounds i).timed_out))) [
              | inl t ↦
                  let (ms, m, late) = timeout_lem mtimeout (rounds i).timed_out t in
                  rw (e, t) (by_timeout buf i ms short m late)
              | inr t ↦
                  rw (e, t)
                    (incoming-Through rounds mtimeout fuel i len buf (rounds i).incoming short k
                      (read_rounds-Through rounds mtimeout fuel (suc i) len))
            ]
    ]

-- The loop of `unix_serial_read` ends after at most `len` rounds, and has read at most `len` bytes.
-- Where it leaves by its test it has read `len` bytes; where it breaks off, it has read fewer, the
-- timeout is positive and `select` has run into it.
pub read_rounds_lem :
    (rounds : ℕ → ReadRound) (mtimeout : ℤ) (len : ℕ)
    → Through rounds len mtimeout (read_rounds rounds mtimeout len 0 len [])
read_rounds_lem rounds mtimeout len =
    read_rounds-Through rounds mtimeout len 0 len [] (omega arith) (omega arith)

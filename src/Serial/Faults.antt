-- ===== src/Serial/Faults.antt =====
-- Where src/serial does not do what it is meant to.
use libzio.Base.{
  ℕ, suc, ◌≡◌, ◌≢◌, refl, true, false, Option, none, some, [], ◌∷◌, arith, leb, ==-true, ==-false,
}
use libzio.Base.Int.{pos, negsuc}
use libzio.Effects.{ok}
use libzio.Effects.Keeps.{Returns}
use libzio.Links.{Links}
use libzio.Serial.Line.{load_ctx-ok, change_ctx-ok, set_at_self, put_ctx}
use libzio.Serial.Port.{SerialBackend, create}
use libzio.Serial.State.{Ptr, SerialRtu, Serial, SerialWorld, sys_close, set_attributes, trace}
use libzio.Serial.Unix.{
  CloseAnswer, ReadRound, unix_serial_read, unix_serial_close, unix_serial_destory, read_rounds,
  set_fd, parity_none, parity_even, parity_odd,
}

-- When the first `read` on an open port fails, `unix_serial_read` of at least one byte with a
-- negative timeout returns 0, and sets no error code: its caller cannot tell a failure from a
-- line on which nothing waits.
pub read_failure :
    (p : Ptr) (w : SerialWorld) {s : Serial} {fd : ℕ} (len k : ℕ) (rounds : ℕ → ReadRound)
    (errno : ℕ)
    → w.ports p ≡ some s
    → s.is_open ≡ true
    → s.backend_data.s ≡ some fd
    → (rounds 0).incoming ≡ none
    → unix_serial_read p (suc len) (negsuc k) rounds errno w ≡ ok ((pos 0, []), w)
unfolding unix_serial_read read_rounds
read_failure p w len k rounds errno at open_ on failed =
    let asked : leb (suc len) 0 ≡ false = ground arith in
    rw (load_ctx-ok p w at, open_, on, asked, failed) refl

-- The backend of `serial_new` on Unix, as far as `create` calls it.
abbrev pub unix_destory : CloseAnswer → SerialBackend → SerialBackend
unix_destory answer backend = record backend { destory = λ p. unix_serial_destory p answer }

-- With a parity that is none of 'N', 'E' and 'O', `serial_new` for a device without a manager
-- returns NULL, but first it closes a descriptor that it has not opened: whatever number the
-- fresh block happens to hold, if `tcsetattr` accepts it.
pub create-junk :
    (links : Links) (backend : SerialBackend) (closing : CloseAnswer) (rtu : SerialRtu)
    (share_mode : ℕ) (junk : Serial) (sm : Option Ptr) (w : SerialWorld) (ctx fd : ℕ)
    → rtu.parity ≢ parity_none
    → rtu.parity ≢ parity_even
    → rtu.parity ≢ parity_odd
    → closing.attributes_ok ≡ true
    → Returns
        (λ made v.
          (made ≡ none)
          × (v.ports ctx ≡ none)
          × (v.line_events
              ≡ sys_close fd ∷ set_attributes fd junk.backend_data.old_tios ∷ w.line_events))
        (create links
          (unix_destory closing backend)
          rtu
          share_mode
          (record { ctx = some ctx; junk = set_fd (some fd) junk; sm = sm })
          w)
unfolding create unix_serial_destory unix_serial_close
create-junk links backend closing rtu share_mode junk sm w ctx fd n e o attributes =
    let named : Serial → Serial = λ s. record s {
      backend_data = record s.backend_data { device = rtu.device; baud = rtu.baud };
    } in
    let block = set_fd (some fd) junk in
    let w1 = put_ctx ctx block w in
    let w2 = put_ctx ctx (named block) w1 in
    let w3 = trace (sys_close fd) (trace (set_attributes fd junk.backend_data.old_tios) w2) in
    rw
      (
        change_ctx-ok ctx named w1 (set_at_self w.ports ctx (some block)),
        ==-false rtu.parity parity_none n,
        ==-false rtu.parity parity_even e,
        ==-false rtu.parity parity_odd o,
        load_ctx-ok ctx w2 (set_at_self w1.ports ctx (some (named block))),
        attributes,
        change_ctx-ok ctx (λ s. record (set_fd none s) { is_open = false }) w3
            (set_at_self w1.ports ctx (some (named block))),
      )
      (refl, rw (==-true ctx ctx refl) refl, refl)

-- ===== src/Zsocket/Invariant.antt =====
-- The invariant of the static variables of src/zsocket.c, and the changes of state that keep it.
use libzio.Base.{ℕ, ◌<◌, ◌≡◌, ◌≢◌, ◌∙◌, ap, refl, Bool, true, false, none, some, arith}
use libzio.Base.Int.{ℤ, incr, decr, ◌+ℤ◌, int_laws, pos, negsuc}
use libzio.Zsocket.Close.{count_closed}
use libzio.Zsocket.Open.{count_client, count_server, count_connection}
use libzio.Zsocket.State.{
  Ptr, SocketType, untyped, client, server, connection, Zsocket, Status, World, update, raise,
  lower,
}

-- Every descriptor of a set is below the bound that `select` gets.
abbrev pub Covers : ℕ → (ℕ → Bool) → Type 0
Covers nfds set = (fd : ℕ) → set fd ≡ true → fd < nfds

-- The counters of `zsocket_status` add up.
pub record Accounts (st : Status) : Type 0 where
  pub current :
      st.nr_current ≡ st.nr_current_client +ℤ st.nr_current_server +ℤ st.nr_current_connection
  pub total : st.nr_total ≡ st.nr_closed +ℤ st.nr_current

-- A socket that is neither connected nor listening has no descriptor.
abbrev pub Typed : Zsocket → Type 0
Typed s = s.type ≡ untyped → s.fd ≡ none

pub record Inv (w : World) : Type 0 where
  pub covers_read : Covers w.nfds_read w.fds_read
  pub covers_write : Covers w.nfds_write w.fds_write
  pub accounts : Accounts w.status
  pub typed : (p : Ptr) (s : Zsocket) → w.mem p ≡ some s → Typed s

pub Covers-raise :
    (nfds : ℕ) (set : ℕ → Bool) (fd : ℕ)
    → Covers nfds set
    → Covers (raise nfds fd) (update set fd true)
Covers-raise nfds set fd h k e = ground (arith, h k)

pub Covers-lower :
    (nfds : ℕ) (set : ℕ → Bool) (fd : ℕ)
    → Covers nfds set
    → Covers (lower nfds fd) (update set fd false)
Covers-lower nfds set fd h k e = ground (arith, h k)

-- One more, or one less, in the sum of three counters.
module _ (k a b c : ℤ) where
  add-first : a +ℤ b +ℤ c +ℤ k ≡ (a +ℤ k) +ℤ b +ℤ c
  add-first = omega int_laws

  add-second : a +ℤ b +ℤ c +ℤ k ≡ a +ℤ (b +ℤ k) +ℤ c
  add-second = omega int_laws

  add-third : a +ℤ b +ℤ c +ℤ k ≡ a +ℤ b +ℤ (c +ℤ k)
  add-third = omega int_laws

add-last : (k a b : ℤ) → a +ℤ b +ℤ k ≡ a +ℤ (b +ℤ k)
add-last k a b = omega int_laws

move_one : (a b : ℤ) → a +ℤ b ≡ incr a +ℤ decr b
move_one a b = omega int_laws

module _ {st : Status} (acc : Accounts st) where
  open acc use {current, total}
  open st use {nr_closed, nr_current, nr_current_client, nr_current_server, nr_current_connection}

  pub Accounts-client : Accounts (count_client st)
  Accounts-client = record {
    current =
        ap incr current
        ∙ add-first (pos 1) nr_current_client nr_current_server nr_current_connection;
    total = ap incr total ∙ add-last (pos 1) nr_closed nr_current;
  }

  pub Accounts-server : Accounts (count_server st)
  Accounts-server = record {
    current =
        ap incr current
        ∙ add-second (pos 1) nr_current_client nr_current_server nr_current_connection;
    total = ap incr total ∙ add-last (pos 1) nr_closed nr_current;
  }

  pub Accounts-connection : Accounts (count_connection st)
  Accounts-connection = record {
    current =
        ap incr current
        ∙ add-third (pos 1) nr_current_client nr_current_server nr_current_connection;
    total = ap incr total ∙ add-last (pos 1) nr_closed nr_current;
  }

  pub Accounts-closed : (t : SocketType) → t ≢ untyped → Accounts (count_closed t st)
  unfolding count_closed
  Accounts-closed untyped ne = absurd (ne refl)
  Accounts-closed client ne = record {
    current =
        ap decr current
        ∙ add-first (negsuc 0) nr_current_client nr_current_server nr_current_connection;
    total = total ∙ move_one nr_closed nr_current;
  }
  Accounts-closed server ne = record {
    current =
        ap decr current
        ∙ add-second (negsuc 0) nr_current_client nr_current_server nr_current_connection;
    total = total ∙ move_one nr_closed nr_current;
  }
  Accounts-closed connection ne = record {
    current =
        ap decr current
        ∙ add-third (negsuc 0) nr_current_client nr_current_server nr_current_connection;
    total = total ∙ move_one nr_closed nr_current;
  }

-- ===== src/Zsocket/Counters.antt =====
-- What the counters of src/zsocket.c are meant to do when a socket is opened and when one is closed.
use libzio.Base.{refl, ◌≡◌, if◌then◌else◌}
use libzio.Base.Int.{ℤ, pos, negsuc, ◌+ℤ◌}
use libzio.Zsocket.Close.{count_closed}
use libzio.Zsocket.Open.{count_client, count_server}
use libzio.Zsocket.State.{SocketType, untyped, client, server, connection, same_type, Status}

-- The number of current sockets of the type `k`, when the number of those of the type `t` has
-- changed by `d`.
abbrev changed_by : ℤ → SocketType → SocketType → ℤ → ℤ
changed_by d t k n = if same_type t k then n +ℤ d else n

-- One socket of the type `t` more: of those that there have been, of the current ones, and of the
-- current ones of its type.
pub record Joins (t : SocketType) (before after : Status) : Type 0 where
  pub total : after.nr_total ≡ before.nr_total +ℤ pos 1
  pub current : after.nr_current ≡ before.nr_current +ℤ pos 1
  pub closed : after.nr_closed ≡ before.nr_closed
  pub clients : after.nr_current_client ≡ changed_by (pos 1) t client before.nr_current_client
  pub servers : after.nr_current_server ≡ changed_by (pos 1) t server before.nr_current_server
  pub connections :
      after.nr_current_connection ≡ changed_by (pos 1) t connection before.nr_current_connection

-- One socket of the type `t` less, and one closed socket more.
pub record Leaves (t : SocketType) (before after : Status) : Type 0 where
  pub total : after.nr_total ≡ before.nr_total
  pub current : after.nr_current ≡ before.nr_current +ℤ negsuc 0
  pub closed : after.nr_closed ≡ before.nr_closed +ℤ pos 1
  pub clients : after.nr_current_client ≡ changed_by (negsuc 0) t client before.nr_current_client
  pub servers : after.nr_current_server ≡ changed_by (negsuc 0) t server before.nr_current_server
  pub connections :
      after.nr_current_connection ≡ changed_by (negsuc 0) t connection before.nr_current_connection

pub count_client-Joins : (st : Status) → Joins client st (count_client st)
count_client-Joins st = record {
  total = refl;
  current = refl;
  closed = refl;
  clients = refl;
  servers = refl;
  connections = refl;
}

pub count_server-Joins : (st : Status) → Joins server st (count_server st)
count_server-Joins st = record {
  total = refl;
  current = refl;
  closed = refl;
  clients = refl;
  servers = refl;
  connections = refl;
}

pub count_closed-Leaves : (t : SocketType) (st : Status) → Leaves t st (count_closed t st)
unfolding count_closed
count_closed-Leaves untyped st = record {
  total = refl;
  current = refl;
  closed = refl;
  clients = refl;
  servers = refl;
  connections = refl;
}
count_closed-Leaves client st = record {
  total = refl;
  current = refl;
  closed = refl;
  clients = refl;
  servers = refl;
  connections = refl;
}
count_closed-Leaves server st = record {
  total = refl;
  current = refl;
  closed = refl;
  clients = refl;
  servers = refl;
  connections = refl;
}
count_closed-Leaves connection st = record {
  total = refl;
  current = refl;
  closed = refl;
  clients = refl;
  servers = refl;
  connections = refl;
}

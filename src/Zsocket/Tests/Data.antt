-- ===== src/Zsocket/Tests/Data.antt =====
-- Sockets, answers of the system and callbacks for runs of src/zsocket.c.
use libzio.Base.{arith, Bool, true, false, none, some, List, [], ◌∷◌, length, ◌==◌}
use libzio.Base.Int.{pos}
use libzio.Effects.{Outcome, ok, abort, fault, stuck, ◌>>◌, pure, skip}
use libzio.Links.{kernel_links}
use libzio.Qbuf.{Qbuf}
use libzio.Qbuf.Valid.{IsValid}
use libzio.Zsocket.Client.{
  Call, declare, to_connect, to_listen, to_accept, to_close, to_read_start, to_write, to_loop,
  start,
}
use libzio.Zsocket.Close.{close}
use libzio.Zsocket.Io.{Memory, RecvAnswer}
use libzio.Zsocket.Loop.{PollAnswer, FdSets, failed, ready}
use libzio.Zsocket.Open.{ConnectAnswer, ListenAnswer, Callbacks, AcceptAnswer, fresh}
use libzio.Zsocket.Shutdown.{marked}
use libzio.Zsocket.State.{
  server, connection, Zsocket, World, no_flags, no_addr, no_operations, client, update,
}

-- An application whose callbacks only count the bytes that they are shown.
abbrev pub quiet : Callbacks
quiet = record {
  on_connected = λ f p. skip;
  on_connection = λ f p. skip;
  on_close = λ f p. skip;
  on_read = λ f p bytes len. pure (pos (length bytes));
}

abbrev pub enough : Memory
enough = record { self_ok = true; block_ok = true; grow = none }

-- Descriptor 5 is ready for reading and for writing.
abbrev pub busy : PollAnswer
busy = record {
  select = λ n s u. ready 2 (λ fd. fd == 5) (λ fd. fd == 5);
  recv = λ p. record { pending = some (9 ∷ 9 ∷ []); now = 8; memory = enough };
  send = λ p. some 2;
}

abbrev pub calls : List Call
calls =
    declare 1
    ∷ to_connect 1 no_addr (some 70)
        (record { new_fd = some 5; connected = true; local = no_addr; now = 3 })
    ∷ to_read_start 1 (some 71)
    ∷ to_write 1 (1 ∷ 2 ∷ 3 ∷ []) enough
    ∷ declare 2
    ∷ to_listen 2 (record { sin_port = 80; sin_addr = 0 }) (some 72)
        (record { new_fd = some 6; bound = true })
    ∷ to_accept 2
        (record { block = some 3; new_fd = some 7; remote = no_addr; local = no_addr; now = 4 })
    ∷ to_loop 1500 busy (λ _. 9)
    ∷ to_close 1 none
    ∷ []

abbrev pub returns : {S A : Type 0} → Outcome (A × S) → Bool
returns (ok _) = true
returns abort = false
returns fault = false
returns stuck = false

-- A connected client on descriptor 5 that is read and written; two bytes wait in each buffer.
abbrev pub two_bytes : Qbuf
two_bytes = record { rawbuf = 6 ∷ 7 ∷ 8 ∷ 0 ∷ []; size = 4; offset_in = 3; offset_out = 1 }

pub two_bytes-IsValid : IsValid two_bytes
two_bytes-IsValid = omega arith

abbrev pub peer : Zsocket
peer = record fresh {
  fd = some 5;
  type = client;
  state = record no_flags { read_enable = true; write_enable = true };
  rbuf = some two_bytes;
  wbuf = some two_bytes;
  s_ops = record no_operations { read_cb = some 71 };
}

abbrev pub peer_world : World
peer_world = record start { socks = 1 ∷ []; mem = update (λ _. none) 1 (some peer) }

abbrev pub looping_world : World
looping_world = record peer_world { in_looping = true }

abbrev pub no_connection : AcceptAnswer
no_connection = record { block = some 3; new_fd = none; remote = no_addr; local = no_addr; now = 4 }

abbrev pub reset : RecvAnswer
reset = record { pending = none; now = 8; memory = enough }

-- A read callback that closes its socket.
abbrev pub closing : Callbacks
closing = record quiet { on_read = λ f p bytes len. close kernel_links p none >> pure (pos 0) }

abbrev pub ready_sets : FdSets
ready_sets = record { for_read = λ fd. fd == 5; for_write = λ fd. fd == 5 }

-- The peer has closed its side; 0 is what `recv` gives.
abbrev pub at_end : PollAnswer
at_end = record busy { recv = λ p. record { pending = some []; now = 8; memory = enough } }

abbrev pub closed_peer : Zsocket
closed_peer = record (marked none peer) { tick = 8 }

abbrev pub broken : PollAnswer
broken = record busy { select = λ n s u. failed false }

-- A close callback that the program does not survive.
abbrev pub fatal : Callbacks
fatal = record quiet { on_close = λ f p w. abort }

-- A server on descriptor 6, and a connection on its port that it has accepted.
abbrev pub listener : Zsocket
listener = record fresh {
  fd = some 6;
  type = server;
  state = record no_flags { read_enable = true };
  laddr = record { sin_port = 80; sin_addr = 0 };
  s_ops = record no_operations { connection_cb = some 72 };
}

abbrev pub accepted_peer : Zsocket
accepted_peer = record peer {
  fd = some 7;
  type = connection;
  laddr = record { sin_port = 80; sin_addr = 0 };
}

abbrev pub server_world : World
server_world = record start {
  socks = 3 ∷ 2 ∷ [];
  mem = update (update (λ _. none) 2 (some listener)) 3 (some accepted_peer);
}

-- A socket that has been declared, and what the system answers when a connection is refused.
abbrev pub declared_world : World
declared_world = record start { mem = update (λ _. none) 1 (some fresh) }

abbrev pub refused : ConnectAnswer
refused = record { new_fd = some 5; connected = false; local = no_addr; now = 3 }

abbrev pub bound : ListenAnswer
bound = record { new_fd = some 6; bound = true }

-- One byte fits behind the two.
abbrev pub incoming : RecvAnswer
incoming = record {
  pending = some (9 ∷ 9 ∷ []);
  now = 8;
  memory = record enough { grow = some (λ k. 0) };
}

-- A read callback that waits for more bytes.
abbrev pub patient : Callbacks
patient = record quiet { on_read = λ f p bytes len. pure (pos 0) }

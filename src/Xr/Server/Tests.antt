-- ===== src/Xr/Server/Tests.antt =====
-- A bridge to run, and the theorems about the server at it.
use meshcom_loraham_bridge.Prelude.{
  none, ℕ, ◌+◌, true, false, some, [], ◌∷◌, ◌≡◌, ◌⊎◌, ◌↔◌, refl, codes, inl,
}
use meshcom_loraham_bridge.Auth.{AuthConfig}
use meshcom_loraham_bridge.Xr.Toy.{toy, toy-ParserLaws, daemon, new_session}
use meshcom_loraham_bridge.Xr.Session.{default_timeouts}
use meshcom_loraham_bridge.Xr.Connection.{read_bytes, wrote}
use meshcom_loraham_bridge.Xr.Server.{
  close_server, Server, Client, accepted, accept_failed, out_of_resources, Arrival, Round,
  try_accept, accept_backoff_ms,
}
use meshcom_loraham_bridge.Xr.Server.Newcomers.{try_accept_busy}
use meshcom_loraham_bridge.Xr.Server.Run.{
  new_server, server_run, Bridge, server_run-Bridge, close_server-Bridge,
}
use meshcom_loraham_bridge.Xr.Server.Listen.{
  Listener, ListenAnswers, listen, no_error, Listens, listen_lem,
}
use meshcom_loraham_bridge.Xr.Session.{open_session, arm, is_closed}
use meshcom_loraham_bridge.Xr.Session.Steps.{open_session-Inv}
use meshcom_loraham_bridge.Xr.Connection.{finished}
use meshcom_loraham_bridge.Loraham.Backend.{set_sink}
use meshcom_loraham_bridge.Loraham.Backend.Invariant.{set_sink-Inv}
use meshcom_loraham_bridge.Loraham.Backend.Poll.{loraham_backend}
use meshcom_loraham_bridge.Loraham.Backend.Steps.{Answers, answer, new_backend, new_backend-Inv}

abbrev an_arrival : Arrival
an_arrival = record { at = 5; nonces = some (1 ∷ 2 ∷ []) ∷ []; capacities = [] }

abbrev quiet : Answers
quiet = record {
  begins = [];
  connects = [];
  conf_room = [];
  data_room = [];
  conf_in = [];
  data_in = [];
}

-- Two newcomers, of which one is let in.
abbrev first_round : Round
first_round = record {
  wait_failed = false;
  listen_ready = true;
  accepts =
      accepted 7 true an_arrival ∷ accepted 8 true an_arrival ∷ accept_failed out_of_resources ∷ [];
  conn_readable = false;
  conn_writable = false;
  reads = [];
  writes = [];
  read_at = 10;
  poll_at = 11;
  tick_at = 12;
  drop_at = 13;
}

-- A HELLO arrives, and the client closes its end.
abbrev second_round : Round
second_round = record first_round {
  accepts = [];
  listen_ready = false;
  conn_readable = true;
  reads = read_bytes (1 ∷ []) ∷ [];
  writes = wrote 2 ∷ wrote 100 ∷ [];
}

abbrev password : AuthConfig
password = record { password = codes "secret" }

server_run-Bridge_example :
    (last : Server toy loraham_backend) × (server_run loraham_backend answer
        ((quiet, first_round) ∷ (quiet, second_round) ∷ [])
        (new_server loraham_backend password default_timeouts 4096 (new_backend 5000 10000))
      ≡ some last)
    × Bridge last.client last.open_fds last.backend
server_run-Bridge_example =
    server_run-Bridge toy-ParserLaws password default_timeouts 4096 5000 10000
      ((quiet, first_round) ∷ (quiet, second_round) ∷ [])

abbrev a_client : Client toy
a_client = record {
  fd = 7;
  conn = record {
    session = new_session;
    socket_error = false;
    fd_open = true;
    reads = [];
    writes = [];
    peer_got = [];
  };
}

abbrev busy : Server toy loraham_backend
busy = record {
  backend = daemon;
  auth = password;
  to = default_timeouts;
  max_outbox = 4096;
  client = some a_client;
  open_fds = 7 ∷ [];
  log = [];
  slept_ms = 0;
}

try_accept_busy_example :
    (t : ℕ) × (try_accept loraham_backend first_round.accepts busy ≡ record busy { slept_ms = t })
    × ((t ≡ 0) ⊎ (t ≡ 0 + accept_backoff_ms))
try_accept_busy_example = try_accept_busy loraham_backend first_round.accepts busy a_client refl

abbrev greeted : Server toy loraham_backend
greeted = record busy {
  backend = set_sink true daemon;
  client = some (record a_client {
    conn = record a_client.conn {
      session = (open_session loraham_backend 5 (new_session, daemon)).0;
    };
  });
}

greeted-Bridge : Bridge greeted.client greeted.open_fds greeted.backend
unfolding finished open_session arm is_closed set_sink
greeted-Bridge = (
  refl,
  refl,
  open_session-Inv loraham_backend 5 new_session daemon,
  refl,
  refl,
  set_sink-Inv daemon true (new_backend-Inv 5000 10000),
  inl refl,
)

close_server-Bridge_example :
    let last = close_server loraham_backend 9 greeted in
    Bridge {ext = toy} none last.open_fds last.backend
close_server-Bridge_example = close_server-Bridge 9 greeted greeted-Bridge

abbrev no_listener : Listener
no_listener = record { listen_fd = none; bound_port = 0; open_fds = [] }

abbrev port_taken : ListenAnswers
port_taken = record {
  socket = some 3;
  address_ok = true;
  bind_ok = false;
  listen_ok = true;
  nonblocking = true;
  port = some 7000;
}

listen_lem_example :
    (((listen port_taken no_listener).0 ≡ no_error)
      ↔ (true ≡ true) × (true ≡ true) × (false ≡ true) × (true ≡ true) × (true ≡ true))
    × Listens port_taken no_listener (listen port_taken no_listener)
listen_lem_example = listen_lem port_taken no_listener

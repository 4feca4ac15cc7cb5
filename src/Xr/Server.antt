-- ===== src/Xr/Server.antt =====
-- src/xr/xr_server.cpp: the loop that accepts a client and drives its connection. What poll(2), the
-- listening socket, the client's socket and the clock answer in one round is an input.
pub mod Newcomers
pub mod Agree
pub mod Invariant
pub mod Run
pub mod Listen
mod Tests
use meshcom_loraham_bridge.Prelude.{
  ℕ, ◌+◌, Bool, true, false, not, ◌&&◌, Option, none, some, List, [], ◌∷◌, ◌++◌, ◌==◌,
  if◌then◌else◌, Bytes, codes, without, is_present,
}
use meshcom_loraham_bridge.Radio.{RadioBackend, zero_config}
use meshcom_loraham_bridge.Auth.{AuthConfig}
use meshcom_loraham_bridge.Xr.Codec.{External}
use meshcom_loraham_bridge.Xr.Outbox.{size}
use meshcom_loraham_bridge.Xr.Session.{
  Session, Timeouts, closed, CloseReason, nothing, output_overflow, malformed_frame, parser_error,
  bad_state, remote_error, auth_failed, auth_error, config_failed, backend_failure,
  handshake_timeout, auth_timeout, config_timeout, pong_timeout, tx_timeout_uncertain,
  internal_error, is_closed,
}
use meshcom_loraham_bridge.Xr.Session.Steps.{deliver}
use meshcom_loraham_bridge.Xr.Session.Time.{tick}
use meshcom_loraham_bridge.Xr.Connection.{
  Connection, SocketRead, SocketWrite, open_connection, close_connection, service_read, flush,
  finished,
}

unfoldable pub close_reason_name : CloseReason → Bytes
close_reason_name nothing = codes "none"
close_reason_name output_overflow = codes "output-overflow"
close_reason_name malformed_frame = codes "malformed-frame"
close_reason_name parser_error = codes "parser-error"
close_reason_name bad_state = codes "bad-state"
close_reason_name remote_error = codes "remote-error"
close_reason_name auth_failed = codes "auth-failed"
close_reason_name auth_error = codes "auth-error"
close_reason_name config_failed = codes "config-failed"
close_reason_name backend_failure = codes "backend-failure"
close_reason_name handshake_timeout = codes "handshake-timeout"
close_reason_name auth_timeout = codes "auth-timeout"
close_reason_name config_timeout = codes "config-timeout"
close_reason_name pong_timeout = codes "pong-timeout"
close_reason_name tx_timeout_uncertain = codes "tx-timeout-uncertain"
close_reason_name internal_error = codes "internal-error"

-- The classes of `errno` behind a failed accept that the code tells apart.
pub data AcceptError : Type 0 where
  none_pending out_of_resources transient : AcceptError

-- What a new connection meets: the time at which it opens, and what `random_nonce` and the capacity
-- of its output vector will answer.
pub record Arrival : Type 0 where
  pub at : ℕ
  pub nonces : List (Option Bytes)
  pub capacities : List ℕ

-- The result of accept: a descriptor, with what set_nonblocking answers for it, or a failure.
pub data Accept : Type 0 where
  accepted : ℕ → Bool → Arrival → Accept
  accept_failed : AcceptError → Accept

-- `conn_`, with its descriptor.
pub record Client (ext : External) : Type 0 where
  pub fd : ℕ
  pub conn : Connection ext

-- `open_fds` are the client descriptors that the kernel has open, `log` are the texts behind
-- "XR client disconnected: ", and `slept_ms` is the time slept after failed accepts.
pub record Server (ext : External) (rb : RadioBackend) : Type 0 where
  pub backend : rb.Backend
  pub auth : AuthConfig
  pub to : Timeouts
  pub max_outbox : ℕ
  pub client : Option (Client ext)
  pub open_fds : List ℕ
  pub log : List Bytes
  pub slept_ms : ℕ

-- What one round of the loop meets. `conn_readable` is POLLIN, POLLHUP or POLLERR on the client's
-- socket; `wait_failed` is a poll(2) that fails otherwise than by EINTR.
pub record Round : Type 0 where
  pub wait_failed : Bool
  pub listen_ready : Bool
  pub accepts : List Accept
  pub conn_readable : Bool
  pub conn_writable : Bool
  pub reads : List SocketRead
  pub writes : List SocketWrite
  pub read_at : ℕ
  pub poll_at : ℕ
  pub tick_at : ℕ
  pub drop_at : ℕ

abbrev pub accept_backoff_ms : ℕ
accept_backoff_ms = 20

module _ {ext : External} where
  -- XrSession's constructor, and the members' initial values.
  unfoldable pub new_session : AuthConfig → Timeouts → ℕ → Arrival → Session ext
  new_session auth to max_outbox a = record {
    auth = auth;
    to = to;
    nonces = a.nonces;
    parser = ext.parser_reset;
    outbox = record { cap = max_outbox; buf = []; head = 0; capacities = a.capacities };
    sent = [];
    phase = closed;
    close_reason = nothing;
    deadline_active = false;
    deadline_at = 0;
    deadline_reason = nothing;
    nonce = [];
    applied_cfg = zero_config;
    requested_cfg = zero_config;
    config_op_token = 0;
    tx_in_flight = false;
    tx_seq = 0;
    tx_deadline_at = 0;
    awaiting_pong = false;
    next_ping_at = 0;
    pong_deadline_at = 0;
    ping_sent_at = 0;
    last_pong_rtt_ms = 0;
    late_pong_warns = 0;
  }

  new_connection : Session ext → Connection ext
  new_connection s = record {
    session = s;
    socket_error = false;
    fd_open = true;
    reads = [];
    writes = [];
    peer_got = [];
  }

  -- Output waits, so the socket is polled for POLLOUT.
  unfoldable pub want_write : Connection ext → Bool
  want_write c = not (size c.session.outbox == 0)

  client_wants_write : Option (Client ext) → Bool
  unfolding want_write
  client_wants_write none = false
  client_wants_write (some c) = want_write c.conn

  -- The client's socket will answer so.
  with_answers : Round → Connection ext → Connection ext
  with_answers i c = record c { reads = i.reads; writes = i.writes }

module _ {ext : External} (rb : RadioBackend) where
  take_client : ℕ → Arrival → Server ext rb → Server ext rb
  unfolding new_session new_connection
  take_client fd a sv =
      let s = new_session sv.auth sv.to sv.max_outbox a in
      let (c, b) = open_connection rb a.at (new_connection s, sv.backend) in
      record sv {
        client = some (record { fd = fd; conn = c });
        backend = b;
        open_fds = fd ∷ sv.open_fds;
      }

  -- A descriptor that is closed again at once.
  refuse : ℕ → Server ext rb → Server ext rb
  refuse fd sv = record sv { open_fds = without fd (fd ∷ sv.open_fds) }

  -- A round of the loop that has got a descriptor.
  admit_client : ℕ → Bool → Arrival → Server ext rb → Server ext rb
  unfolding take_client refuse
  admit_client fd nonblocking a sv =
      if is_present sv.client
      then refuse fd sv
      else if not nonblocking
      then refuse fd sv
      else take_client fd a sv

  unfoldable pub try_accept : List Accept → Server ext rb → Server ext rb
  unfolding admit_client
  try_accept [] sv = sv
  try_accept (accepted fd nonblocking a ∷ answers) sv =
      try_accept answers (admit_client fd nonblocking a sv)
  try_accept (accept_failed out_of_resources ∷ answers) sv = record sv {
    slept_ms = sv.slept_ms + accept_backoff_ms;
  }
  try_accept (accept_failed e ∷ answers) sv = sv

  reason_of : Session ext → Bytes
  unfolding close_reason_name
  reason_of s = if is_closed s.phase then close_reason_name s.close_reason else codes "peer closed"

  -- The client's connection is as given, and is dropped if it has finished.
  unfoldable pub drop_connection_if_finished :
      ℕ → ℕ → Connection ext × rb.Backend → Server ext rb → Server ext rb
  unfolding reason_of
  drop_connection_if_finished now fd (c, b) sv =
      if finished c
      then record sv {
        client = none;
        backend = (close_connection rb now (c, b)).1;
        open_fds = without fd sv.open_fds;
        log = sv.log ++ reason_of c.session ∷ [];
      }
      else record sv { client = some (record { fd = fd; conn = c }); backend = b }

  -- What the socket's events ask for; `none` is a feed that has not ended.
  serve_events :
      Bool → Bool → ℕ → Connection ext × rb.Backend → Option (Connection ext × rb.Backend)
  serve_events readable writable now (c, b) =
      let after_read = if readable then service_read rb now (c, b) else some (c, b) in
      elim after_read [ none ↦ none | some (c', b') ↦ some (if writable then flush c' else c', b') ]

  pump_and_tick : Round → Connection ext × rb.Backend → Connection ext × rb.Backend
  pump_and_tick i (c, b) =
      let (s, b') = tick rb i.tick_at (deliver rb i.poll_at (c.session, b)) in
      (flush (record c { session = s }), b')

  -- The part of poll_once behind accept. `had` is a client that was there before it.
  serve_client : Bool → Bool → Round → Option (Client ext) → Server ext rb → Option (Server ext rb)
  unfolding serve_events pump_and_tick with_answers
  serve_client had wants i none sv = some (record sv { backend = (rb.poll i.poll_at sv.backend).0 })
  serve_client had wants i (some c) sv =
      elim (serve_events (had && i.conn_readable) (had && (wants && i.conn_writable)) i.read_at
        (with_answers i c.conn, sv.backend)) [
          | none ↦ none
          | some r ↦ some (drop_connection_if_finished i.drop_at c.fd (pump_and_tick i r) sv)
        ]

  unfoldable pub poll_once : Round → Server ext rb → Option (Server ext rb)
  unfolding serve_client client_wants_write
  poll_once i sv =
      let accepting = if i.listen_ready then try_accept i.accepts sv else sv in
      if i.wait_failed
      then some sv
      else serve_client (is_present sv.client) (client_wants_write sv.client) i accepting.client
          accepting

  -- The destructor, of which the listener is left out.
  unfoldable pub close_server : ℕ → Server ext rb → Server ext rb
  close_server now sv = elim sv.client [
    | none ↦ sv
    | some c ↦ record sv {
      client = none;
      backend = (close_connection rb now (c.conn, sv.backend)).1;
      open_fds = without c.fd sv.open_fds;
    }
  ]

-- ===== src/Xr/Connection.antt =====
-- src/xr/xr_connection.h and xr_connection.cpp: one client's socket, its session and the backend, and
-- the wait of src/xr/xr_server.cpp. What the socket answers is an input: each list holds the answers
-- of the next calls, in order, and an exhausted list stands for "nothing now" (EAGAIN).
pub mod Flush
pub mod Teardown
pub mod Keeps
use meshcom_loraham_bridge.Prelude.{
  ℕ, ◌+◌, ◌-◌, Bool, true, false, ◌&&◌, ◌||◌, Option, none, some, List, [], ◌∷◌, ◌++◌, ltb, leb,
  ◌==◌, if◌then◌else◌, length, take, min, Bytes, u64_max, ◌≤◌, ◌<◌, ◌≡◌, ◌↔◌, ◌⊎◌, arith,
}
use meshcom_loraham_bridge.Radio.{RadioBackend}
use meshcom_loraham_bridge.Xr.Codec.{External}
use meshcom_loraham_bridge.Xr.Outbox.{Buffer, size, unsent, consume}
use meshcom_loraham_bridge.Xr.Session.{Session, is_closed, open_session, out_consume}
use meshcom_loraham_bridge.Xr.Session.Feed.{feed}
use meshcom_loraham_bridge.Xr.Session.Steps.{deliver}
use meshcom_loraham_bridge.Xr.Session.Time.{tick}

-- The results of `recv` and of `send`; a send that takes nothing is an error.
pub data SocketRead : Type 0 where
  read_bytes : Bytes → SocketRead
  read_closed read_again read_interrupted read_failed : SocketRead

pub data SocketWrite : Type 0 where
  wrote : ℕ → SocketWrite
  write_again write_interrupted write_failed : SocketWrite

-- `peer_got` is what the socket has taken so far.
pub record Connection (ext : External) : Type 0 where
  pub session : Session ext
  pub socket_error : Bool
  pub fd_open : Bool
  pub reads : List SocketRead
  pub writes : List SocketWrite
  pub peer_got : Bytes

abbrev pub recv_size : ℕ
recv_size = 1024

module _ {ext : External} where
  -- `send` takes a part of what is offered, and out_consume drops it.
  pub send_part : ℕ → Connection ext → Connection ext
  unfolding out_consume
  send_part w c = record c {
    peer_got = c.peer_got ++ take w (unsent c.session.outbox);
    session = out_consume w c.session;
  }

  pub fail_socket : Connection ext → Connection ext
  fail_socket c = record c { socket_error = true }

  -- The loop, with the answers that are left behind it.
  unfoldable pub flush_loop : List SocketWrite → Connection ext → List SocketWrite × Connection ext
  unfolding send_part fail_socket
  flush_loop [] c = ([], c)
  flush_loop (a ∷ answers) c =
      let w : ℕ = elim a [ wrote n ↦ min n (size c.session.outbox) | _ ↦ 0 ] in
      let after_send = flush_loop answers (send_part w c) in
      let again = flush_loop answers c in
      if size c.session.outbox == 0 then (a ∷ answers, c) else elim a [
        | wrote n ↦ if w == 0 then (answers, fail_socket c) else after_send
        | write_again ↦ (answers, c)
        | write_interrupted ↦ again
        | write_failed ↦ (answers, fail_socket c)
      ]

  unfoldable pub flush : Connection ext → Connection ext
  flush c = let (rest, c') = flush_loop c.writes c in record c' { writes = rest }

  unfoldable pub finished : Connection ext → Bool
  finished c = c.socket_error || (is_closed c.session.phase && size c.session.outbox == 0)

module _ {ext : External} (rb : RadioBackend) where
  -- The constructor: the backend reports to the new session, which opens.
  unfoldable pub open_connection : ℕ → Connection ext × rb.Backend → Connection ext × rb.Backend
  open_connection now (c, b) =
      let (s, b') = open_session rb now (c.session, rb.set_sink true b) in
      (record c { session = s; socket_error = false; fd_open = true; peer_got = [] }, b')

  -- The destructor.
  unfoldable pub close_connection : ℕ → Connection ext × rb.Backend → Connection ext × rb.Backend
  close_connection now (c, b) =
      let abandoned = rb.abandon_pending_tx now b in
      (record c { fd_open = false }, rb.stop (rb.set_sink false abandoned))

  -- What follows a read: a closed session or a short read ends the loop. `none` is a feed that has
  -- not ended.
  after_feed :
      Option (Session ext × rb.Backend)
      → Bool
      → List SocketRead
      → Connection ext
      → (Connection ext × rb.Backend → Option (Connection ext × rb.Backend))
      → Option (Connection ext × rb.Backend)
  after_feed none short rest c more = none
  after_feed (some (s, b)) short rest c more =
      let c' = record c { session = s; reads = rest } in
      if is_closed s.phase || short then some (c', b) else more (c', b)

  unfoldable pub read_loop :
      ℕ → List SocketRead → Connection ext × rb.Backend → Option (Connection ext × rb.Backend)
  unfolding after_feed
  read_loop now [] (c, b) = some (record c { reads = [] }, b)
  read_loop now (a ∷ rest) (c, b) =
      let more = λ (r : Connection ext × rb.Backend). read_loop now rest r in
      elim a [
        | read_bytes bytes ↦
            after_feed (feed rb now (take recv_size bytes) (c.session, b))
              (ltb (length (take recv_size bytes)) recv_size) rest c more
        | read_closed ↦ some (record c { socket_error = true; reads = rest }, b)
        | read_again ↦ some (record c { reads = rest }, b)
        | read_interrupted ↦ more (c, b)
        | read_failed ↦ some (record c { socket_error = true; reads = rest }, b)
      ]

  unfoldable pub service_read :
      ℕ → Connection ext × rb.Backend → Option (Connection ext × rb.Backend)
  service_read now (c, b) = elim (read_loop now c.reads (c, b)) [
    | none ↦ none
    | some (c', b') ↦ some (flush c', b')
  ]

-- `compute_timeout_ms` of the server: the wait of the event loop, from the clock, the backend's
-- deadline and the session's, if there is one.
unfoldable pub compute_timeout_ms : ℕ → ℕ → Option ℕ → ℕ
compute_timeout_ms now backend_deadline session_deadline =
    let next : ℕ = elim session_deadline [
      | none ↦ backend_deadline
      | some s ↦ if ltb s backend_deadline then s else backend_deadline
    ] in
    if next == u64_max
    then 100
    else if leb next now
    then 0
    else if ltb (next - now) 100
    then next - now
    else 100

-- A time that is not past a deadline, unless the deadline is due already or is not set.
abbrev pub IsBefore : ℕ → ℕ → ℕ → Type 0
IsBefore time now deadline = (deadline ≤ now) ⊎ ((deadline ≡ u64_max) ⊎ (time ≤ deadline))

-- With both deadlines in 64 bits, the wait is at most 100 ms and does not run past a deadline that is
-- set and ahead; it is nothing exactly when a deadline that is set is due.
pub compute_timeout_ms_lem :
    (now backend_deadline session_deadline : ℕ)
    → backend_deadline ≤ u64_max
    → session_deadline ≤ u64_max
    → let wait = compute_timeout_ms now backend_deadline (some session_deadline) in
      (wait ≤ 100)
      × IsBefore (now + wait) now backend_deadline
      × IsBefore (now + wait) now session_deadline
      × ((wait ≡ 0)
          ↔ ((backend_deadline ≤ now) × (backend_deadline < u64_max))
            ⊎ ((session_deadline ≤ now) × (session_deadline < u64_max)))
unfolding compute_timeout_ms
compute_timeout_ms_lem now b s h k = ground arith

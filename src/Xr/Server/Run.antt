-- ===== src/Xr/Server/Run.antt =====
-- The event loop of the bridge: run() of src/xr/xr_server.cpp over any rounds, and that loop with
-- LorahamBackend.
use meshcom_loraham_bridge.Prelude.{
  ap, without, without-cons, ℕ, Bool, true, false, Option, none, some, List, [], ◌∷◌, ◌≡◌, refl,
  ◌∙◌, inl,
}
use meshcom_loraham_bridge.Radio.{RadioBackend}
use meshcom_loraham_bridge.Xr.Session.View.{seen}
use meshcom_loraham_bridge.Xr.Session.Agree.{ViewLaws}
use meshcom_loraham_bridge.Xr.Server.Agree.{Beside, Alone, loraham-ViewLaws}
use meshcom_loraham_bridge.Loraham.Backend.View.{View, idle, awaiting, free, busy, gone, In}
use meshcom_loraham_bridge.Auth.{AuthConfig}
use meshcom_loraham_bridge.Xr.Codec.{External, ParserLaws}
use meshcom_loraham_bridge.Xr.Session.{Timeouts}
use meshcom_loraham_bridge.Xr.Session.Invariant.{SessionInv}
use meshcom_loraham_bridge.Xr.Connection.{finished}
use meshcom_loraham_bridge.Xr.Connection.Keeps.{close_connection_keeps}
use meshcom_loraham_bridge.Xr.Server.{Client, Server, Round, poll_once, close_server}
use meshcom_loraham_bridge.Xr.Server.Newcomers.{Holds}
use meshcom_loraham_bridge.Xr.Server.Invariant.{ServerInv, Lasts, poll_once-ServerInv}
use meshcom_loraham_bridge.Loraham.Backend.{Backend}
use meshcom_loraham_bridge.Loraham.Backend.Poll.{loraham_backend}
use meshcom_loraham_bridge.Loraham.Backend.Poll.Sink.{Reports}
use meshcom_loraham_bridge.Loraham.Backend.Invariant.{Inv}
use meshcom_loraham_bridge.Loraham.Backend.Steps.{
  Answers, answer, answer-Inv, new_backend, new_backend-Inv,
}

module _ {ext : External} (rb : RadioBackend) where
  -- The constructor, and a listen that has succeeded.
  unfoldable pub new_server : AuthConfig → Timeouts → ℕ → rb.Backend → Server ext rb
  new_server auth to max_outbox b = record {
    backend = b;
    auth = auth;
    to = to;
    max_outbox = max_outbox;
    client = none;
    open_fds = [];
    log = [];
    slept_ms = 0;
  }

-- `world` is what happens to the backend's own sockets between two rounds.
module _ {ext : External} (rb : RadioBackend) {World : Type 0}
    (world : World → rb.Backend → rb.Backend) where
  unfoldable pub server_run : List (World × Round) → Server ext rb → Option (Server ext rb)
  server_run [] sv = some sv
  server_run ((w, i) ∷ rounds) sv =
      elim (poll_once rb i (record sv { backend = world w sv.backend })) [
        | none ↦ none
        | some next ↦ server_run rounds next
      ]

  server_run-cons :
      (w : World) (i : Round) (rounds : List (World × Round)) (sv next : Server ext rb)
      → poll_once rb i (record sv { backend = world w sv.backend }) ≡ some next
      → server_run ((w, i) ∷ rounds) sv ≡ server_run rounds next
  unfolding server_run
  server_run-cons w i rounds sv next e = rw (e, server_run) refl

module _ {ext : External} (rb : RadioBackend) (F : View → rb.Backend → Type 0)
    (P : rb.Backend → Type 0) (laws : ViewLaws rb F P) (parser : ParserLaws ext) {World : Type 0}
    (world : World → rb.Backend → rb.Backend)
    (beside_world : (v : View) (w : World) (b : rb.Backend) → F v b → F v (world w b))
    (alone_world : (w : World) (b : rb.Backend) → P b → P (world w b)) where
  moved_Holds :
      (w : World) (client : Option (Client ext)) (fds : List ℕ) (b : rb.Backend)
      → Holds rb F P client fds b
      → Holds rb F P client fds (world w b)
  moved_Holds w none fds b (e, p) = (e, alone_world w b p)
  moved_Holds w (some c) fds b (e, up, p) = (e, up, beside_world (seen c.conn.session) w b p)

  moved-ServerInv :
      (w : World) (sv : Server ext rb)
      → ServerInv rb F P sv
      → ServerInv rb F P (record sv { backend = world w sv.backend })
  moved-ServerInv w sv v = record {
    serves = moved_Holds w sv.client sv.open_fds sv.backend v.serves;
    lasts = v.lasts;
  }

  pub server_run-ServerInv :
      (rounds : List (World × Round)) (sv : Server ext rb)
      → ServerInv rb F P sv
      → (last : Server ext rb) × (server_run rb world rounds sv ≡ some last) × ServerInv rb F P last
  unfolding server_run
  server_run-ServerInv [] sv v = (sv, refl, v)
  server_run-ServerInv ((w, i) ∷ rounds) sv v =
      let (next, e, v') =
        poll_once-ServerInv rb F P laws parser i (record sv { backend = world w sv.backend })
          (moved-ServerInv w sv v) in
      let (last, e', v'') = server_run-ServerInv rounds next v' in
      (last, server_run-cons rb world w i rounds sv next e ∙ e', v'')

-- What is known of the bridge between two rounds: with no client, no client descriptor is open, and
-- the backend has no sink and is disconnected, draining or faulted; else the client's descriptor is
-- the only one, its session keeps its invariant, it is not finished, and the backend has that session
-- as its sink and, while the session is open, is in a state that fits the session's phase. Of the
-- backend's state beside a session that is closed, with output not sent yet, nothing is known but
-- its invariant.
abbrev pub Bridge : {ext : External} → Option (Client ext) → List ℕ → Backend → Type 0
Bridge none fds b = (fds ≡ []) × (b.sink ≡ false) × Inv b × In idle b
Bridge (some c) fds b =
    (fds ≡ c.fd ∷ [])
    × (c.conn.fd_open ≡ true)
    × SessionInv c.conn.session
    × (finished c.conn ≡ false)
    × (b.sink ≡ true)
    × Inv b
    × In (seen c.conn.session) b

Bridge-of :
    {ext : External} (client : Option (Client ext)) (fds : List ℕ) (b : Backend)
    → Holds loraham_backend Beside Alone client fds b
    → Lasts loraham_backend Beside Alone client
    → Bridge client fds b
Bridge-of none fds b (e, (r, h)) l = (e, r.sink, r.inv, h)
Bridge-of (some c) fds b (e, up, (r, h)) l = (e, up.fd, up.session, l, r.sink, r.inv, h)

answer-Reports : (k : Bool) (a : Answers) (b : Backend) → Reports k b → Reports k (answer a b)
unfolding answer
answer-Reports k a b v = record { inv = answer-Inv a b v.inv; sink = v.sink }

answer-In : (v : View) (a : Answers) (b : Backend) → In v b → In v (answer a b)
unfolding answer
answer-In idle a b h = h
answer-In (awaiting t) a b h = h
answer-In free a b h = h
answer-In busy a b h = h
answer-In gone a b h = h

-- Whatever poll(2), accept, the client, the daemon and the clock do, for any number of rounds from
-- the start, with LorahamBackend: if the vendored parser obeys its laws, every round ends, and after
-- it the backend and the session keep their invariants; there is one client at most, that has not
-- finished and is the backend's sink; no client descriptor is open but this client's. While the
-- session is open they agree: in ready the backend writes a packet or awaits its result where the
-- session has one in flight, and is ready where not; in configuring the backend works on the
-- configuration, under the same token; in the phases before it, and with no client, the backend is
-- disconnected, draining or faulted. Of the backend beside a session that is closed and has output
-- left, no more is said than its invariant and its sink.
pub server_run-Bridge :
    {ext : External}
    → ParserLaws ext
    → (auth : AuthConfig) (to : Timeouts) (max_outbox config_timeout drain_timeout : ℕ)
      (rounds : List (Answers × Round))
    → (last : Server ext loraham_backend) × (server_run loraham_backend answer rounds
          (new_server loraham_backend auth to max_outbox (new_backend config_timeout drain_timeout))
        ≡ some last)
      × Bridge last.client last.open_fds last.backend
unfolding new_server
server_run-Bridge {ext} parser auth to max_outbox c d rounds =
    let start : Server ext loraham_backend =
      new_server loraham_backend auth to max_outbox (new_backend c d) in
    let v : ServerInv loraham_backend Beside Alone start = record {
      serves = (refl, (record { inv = new_backend-Inv c d; sink = refl }, inl refl));
      lasts = tt;
    } in
    let (last, e, w) =
      server_run-ServerInv loraham_backend Beside Alone loraham-ViewLaws parser answer
        (λ v a b h. (answer-Reports true a b h.0, answer-In v a b h.1))
        (λ a b h. (answer-Reports false a b h.0, answer-In idle a b h.1)) rounds start v in
    (last, e, Bridge-of last.client last.open_fds last.backend w.serves w.lasts)

module _ {ext : External} (now : ℕ) (sv : Server ext loraham_backend) where
  closed_Bridge :
      (client : Option (Client ext))
      → sv.client ≡ client
      → Bridge client sv.open_fds sv.backend
      → let last = close_server loraham_backend now sv in
        Bridge {ext = ext} none last.open_fds last.backend
  unfolding close_server
  closed_Bridge none e b = rw (e, close_server) b
  closed_Bridge (some c) e (fds, up, s, f, sink, inv, h) =
      let (r, settled) =
        close_connection_keeps loraham_backend Beside Alone loraham-ViewLaws now c.conn sv.backend
          (record { inv = inv; sink = sink }, h) in
      rw (e, close_server) (ap (without c.fd) fds ∙ without-cons c.fd [], r.sink, r.inv, settled)

  -- When the server ends between two rounds, no client descriptor stays open, and the backend reports
  -- to no session and is disconnected, draining or faulted.
  pub close_server-Bridge :
      Bridge sv.client sv.open_fds sv.backend
      → let last = close_server loraham_backend now sv in
        Bridge {ext = ext} none last.open_fds last.backend
  close_server-Bridge b = closed_Bridge sv.client refl b

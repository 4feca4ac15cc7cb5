-- ===== src/Xr/Server/Invariant.antt =====
-- The invariant of the server over any rounds of its loop.
use meshcom_loraham_bridge.Prelude.{
  ℕ, Bool, true, false, ◌&&◌, Option, none, some, [], ◌∷◌, ◌≡◌, refl, ap, sym, ◌∙◌, subst, if_rule,
  if_split, if◌then◌else◌, without, without-cons, is_present,
}
use meshcom_loraham_bridge.Radio.{RadioBackend}
use meshcom_loraham_bridge.Loraham.Backend.View.{View}
use meshcom_loraham_bridge.Xr.Codec.{External, ParserLaws}
use meshcom_loraham_bridge.Xr.Session.Time.{tick}
use meshcom_loraham_bridge.Xr.Session.Time.Keeps.{tick-Inv}
use meshcom_loraham_bridge.Xr.Session.Time.Agree.{tick-Agree}
use meshcom_loraham_bridge.Xr.Session.Agree.{ViewLaws, deliver-Agree}
use meshcom_loraham_bridge.Xr.Session.Steps.{deliver, deliver-Inv}
use meshcom_loraham_bridge.Xr.Connection.{Connection, flush, finished, service_read}
use meshcom_loraham_bridge.Xr.Connection.Keeps.{
  IsUp, Works, flush-Works, service_read-Works, close_connection_keeps,
}
use meshcom_loraham_bridge.Xr.Server.{
  Client, Server, Round, client_wants_write, with_answers, serve_events, pump_and_tick,
  drop_connection_if_finished, serve_client, try_accept, poll_once,
}
use meshcom_loraham_bridge.Xr.Server.Newcomers.{Holds, Serves, try_accept-Serves}

module _ {ext : External} (rb : RadioBackend) (F : View → rb.Backend → Type 0)
    (P : rb.Backend → Type 0) where
  -- The client that there is has not finished.
  abbrev pub Lasts : Option (Client ext) → Type 0
  Lasts none = Unit {0}
  Lasts (some c) = finished c.conn ≡ false

  pub record ServerInv (sv : Server ext rb) : Type 0 where
    pub serves : Serves rb F P sv
    pub lasts : Lasts sv.client

module _ {ext : External} (rb : RadioBackend) (F : View → rb.Backend → Type 0)
    (P : rb.Backend → Type 0) (laws : ViewLaws rb F P) where
  drop_connection-ServerInv :
      (now fd : ℕ) (c : Connection ext) (b : rb.Backend) (sv : Server ext rb)
      → Works rb F (c, b)
      → sv.open_fds ≡ fd ∷ []
      → ServerInv rb F P (drop_connection_if_finished rb now fd (c, b) sv)
  unfolding drop_connection_if_finished
  drop_connection-ServerInv now fd c b sv w e =
      if_split (ServerInv rb F P) (finished c) _ _
        (λ _. record {
          serves = (
            ap (without fd) e ∙ without-cons fd [],
            close_connection_keeps rb F P laws now c b w.1,
          );
          lasts = tt;
        })
        (λ f. record { serves = (e, w.0, w.1); lasts = f })

  pump_and_tick-Works :
      (i : Round) (c : Connection ext) (b : rb.Backend)
      → Works rb F (c, b)
      → Works rb F (pump_and_tick rb i (c, b))
  unfolding pump_and_tick
  pump_and_tick-Works i c b w =
      let d = deliver rb i.poll_at (c.session, b) in
      let v = deliver-Inv rb i.poll_at c.session b w.0.session in
      let p = deliver-Agree rb F P laws i.poll_at c.session b w.0.session w.1 in
      let up : IsUp (record c { session = (tick rb i.tick_at d).0 }) = record {
        session = tick-Inv rb i.tick_at d.0 d.1 v;
        fd = w.0.fd;
      } in
      flush-Works rb F P laws _ _ (up, tick-Agree rb F P laws i.tick_at d.0 d.1 p)

module _ {ext : External} (rb : RadioBackend) where
  written : Bool → Connection ext → Connection ext
  written writable c = if writable then flush c else c

  serve_events_read :
      (writable : Bool) (now : ℕ) (c : Connection ext) (b : rb.Backend)
      (r : Connection ext × rb.Backend)
      → service_read rb now (c, b) ≡ some r
      → serve_events rb true writable now (c, b) ≡ some (written writable r.0, r.1)
  unfolding serve_events written
  serve_events_read writable now c b r e = rw (e, serve_events) refl

  serve_client-some :
      (had wants : Bool) (i : Round) (c : Client ext) (sv : Server ext rb)
      (r : Connection ext × rb.Backend)
      → serve_events rb
          (had && i.conn_readable)
          (had && (wants && i.conn_writable))
          i.read_at
          (with_answers i c.conn, sv.backend)
        ≡ some r
      → serve_client rb had wants i (some c) sv
        ≡ some (drop_connection_if_finished rb i.drop_at c.fd (pump_and_tick rb i r) sv)
  unfolding serve_client
  serve_client-some had wants i c sv r e = rw (e, serve_client) refl

module _ {ext : External} (rb : RadioBackend) (F : View → rb.Backend → Type 0)
    (P : rb.Backend → Type 0) (laws : ViewLaws rb F P) (parser : ParserLaws ext) where
  written-Works :
      (writable : Bool) (c : Connection ext) (b : rb.Backend)
      → Works rb F (c, b)
      → Works rb F (written rb writable c, b)
  unfolding written
  written-Works writable c b w =
      if_rule (λ (d : Connection ext). Works rb F (d, b)) writable _ _
        (flush-Works rb F P laws c b w) w

  serve_events-Works :
      (readable writable : Bool) (now : ℕ) (c : Connection ext) (b : rb.Backend)
      → Works rb F (c, b)
      → (r : Connection ext × rb.Backend) × (serve_events rb readable writable now (c, b) ≡ some r)
        × Works rb F r
  unfolding serve_events written
  serve_events-Works false writable now c b w =
      ((written rb writable c, b), refl, written-Works writable c b w)
  serve_events-Works true writable now c b w =
      let (r, e, w') = service_read-Works rb F P laws parser now c b w in
      (
        (written rb writable r.0, r.1),
        serve_events_read rb writable now c b r e,
        written-Works writable r.0 r.1 w',
      )

  -- What a round comes to.
  abbrev Comes : Option (Server ext rb) → Type 0
  Comes o = (next : Server ext rb) × (o ≡ some next) × ServerInv rb F P next

  serve_client-ServerInv :
      (had wants : Bool) (i : Round) (client : Option (Client ext)) (sv : Server ext rb)
      → sv.client ≡ client
      → Holds rb F P client sv.open_fds sv.backend
      → Comes (serve_client rb had wants i client sv)
  unfolding serve_client with_answers
  serve_client-ServerInv had wants i none sv none_here (e, p) =
      let b = (rb.poll i.poll_at sv.backend).0 in
      (
        record sv { backend = b },
        refl,
        record {
          serves =
              subst (λ (o : Option (Client ext)). Holds rb F P o sv.open_fds b) (sym none_here)
                (e, laws.rests i.poll_at sv.backend p);
          lasts = subst (Lasts rb F P) (sym none_here) tt;
        },
      )
  serve_client-ServerInv had wants i (some c) sv here (e, up, p) =
      let up' : IsUp (with_answers i c.conn) = record { session = up.session; fd = up.fd } in
      let (r, e', w) =
        serve_events-Works (had && i.conn_readable) (had && (wants && i.conn_writable)) i.read_at
          (with_answers i c.conn) sv.backend (up', p) in
      let ticked = pump_and_tick rb i r in
      (
        drop_connection_if_finished rb i.drop_at c.fd ticked sv,
        serve_client-some rb had wants i c sv r e',
        drop_connection-ServerInv rb F P laws i.drop_at c.fd ticked.0 ticked.1 sv
            (pump_and_tick-Works rb F P laws i r.0 r.1 w) e,
      )

  pub poll_once-ServerInv :
      (i : Round) (sv : Server ext rb) → ServerInv rb F P sv → Comes (poll_once rb i sv)
  unfolding poll_once
  poll_once-ServerInv i sv v =
      let accepting = (if i.listen_ready then try_accept rb i.accepts sv else sv) in
      let w : Serves rb F P accepting =
        if_rule (Serves rb F P) i.listen_ready _ _
          (try_accept-Serves rb F P laws i.accepts sv v.serves) v.serves in
      if_rule Comes i.wait_failed _ _ (sv, refl, v)
        (serve_client-ServerInv (is_present sv.client) (client_wants_write sv.client) i
          accepting.client accepting refl w)

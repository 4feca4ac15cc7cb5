-- ===== src/Xr/Connection/Keeps.antt =====
-- What the operations of a connection keep, with any backend.
use meshcom_loraham_bridge.Prelude.{
  ℕ, Bool, true, ◌||◌, Option, none, some, List, [], ◌∷◌, ltb, length, take, ◌≡◌, refl, subst, sym,
  if_rule,
}
use meshcom_loraham_bridge.Radio.{RadioBackend}
use meshcom_loraham_bridge.Loraham.Backend.View.{View}
use meshcom_loraham_bridge.Xr.Codec.{External, ParserLaws}
use meshcom_loraham_bridge.Xr.Session.{Session, is_closed}
use meshcom_loraham_bridge.Xr.Session.Invariant.{SessionInv}
use meshcom_loraham_bridge.Xr.Session.Feed.Keeps.{feed-SessionInv}
use meshcom_loraham_bridge.Xr.Session.View.{seen}
use meshcom_loraham_bridge.Xr.Session.Feed.Agree.{feed-Agree}
use meshcom_loraham_bridge.Xr.Session.Agree.{ViewLaws, open_session-Agree}
use meshcom_loraham_bridge.Xr.Session.Steps.{out_consume-Inv, open_session-Inv}
use meshcom_loraham_bridge.Xr.Connection.{
  Connection, SocketRead, read_bytes, read_closed, read_again, read_interrupted, read_failed,
  recv_size, send_part, fail_socket, flush, after_feed, read_loop, service_read, open_connection,
  close_connection,
}
use meshcom_loraham_bridge.Xr.Connection.Flush.{flush_loop_rule}

-- A connection that is up.
pub record IsUp {ext : External} (c : Connection ext) : Type 0 where
  pub session : SessionInv c.session
  pub fd : c.fd_open ≡ true

module _ {ext : External} where
  flush_seen : (c : Connection ext) → seen (flush c).session ≡ seen c.session
  unfolding flush send_part fail_socket
  flush_seen c =
      flush_loop_rule (λ d. seen d.session ≡ seen c.session) (λ w d e. e) (λ d e. e) c.writes c refl

  sent_Up : (w : ℕ) (c : Connection ext) → IsUp c → IsUp (send_part w c)
  unfolding send_part
  sent_Up w c v = record { session = out_consume-Inv w c.session v.session; fd = v.fd }

  failed_Up : (c : Connection ext) → IsUp c → IsUp (fail_socket c)
  unfolding fail_socket
  failed_Up c v = record { session = v.session; fd = v.fd }

  pub flush-Up : (c : Connection ext) → IsUp c → IsUp (flush c)
  unfolding flush
  flush-Up c v =
      let w = flush_loop_rule IsUp sent_Up failed_Up c.writes c v in
      record { session = w.session; fd = w.fd }

module _ {ext : External} (rb : RadioBackend) (F : View → rb.Backend → Type 0) where
  -- A connection that is up, and a backend that agrees with its session.
  abbrev pub Works : Connection ext × rb.Backend → Type 0
  Works r = IsUp r.0 × F (seen r.0.session) r.1

  abbrev WorksIf : Option (Connection ext × rb.Backend) → Type 0
  WorksIf none = ⊥
  WorksIf (some r) = Works r

  WorksIf-some :
      (o : Option (Connection ext × rb.Backend))
      → WorksIf o
      → (r : Connection ext × rb.Backend) × (o ≡ some r) × Works r
  WorksIf-some none w = absurd w
  WorksIf-some (some r) w = (r, refl, w)

module _ {ext : External} (rb : RadioBackend) where
  service_read-some :
      (now : ℕ) (c : Connection ext) (b : rb.Backend) (r : Connection ext × rb.Backend)
      → read_loop rb now c.reads (c, b) ≡ some r
      → service_read rb now (c, b) ≡ some (flush r.0, r.1)
  unfolding service_read
  service_read-some now c b r e = rw (e, service_read) refl

module _ {ext : External} (rb : RadioBackend) (F : View → rb.Backend → Type 0)
    (P : rb.Backend → Type 0) (laws : ViewLaws rb F P) where
  pub open_connection-Works :
      (now : ℕ) (c : Connection ext) (b : rb.Backend)
      → P b
      → Works rb F (open_connection rb now (c, b))
  unfolding open_connection
  open_connection-Works now c b p = (
    record { session = open_session-Inv rb now c.session (rb.set_sink true b); fd = refl },
    open_session-Agree rb F P laws now c.session b p,
  )

  pub close_connection_keeps :
      (now : ℕ) (c : Connection ext) (b : rb.Backend)
      → F (seen c.session) b
      → P (close_connection rb now (c, b)).1
  unfolding close_connection
  close_connection_keeps now c b h = laws.closes now (seen c.session) b h

  pub flush-Works :
      (c : Connection ext) (b : rb.Backend) → Works rb F (c, b) → Works rb F (flush c, b)
  flush-Works c b (u, h) = (flush-Up c u, subst (λ (v : View). F v b) (sym (flush_seen c)) h)

module _ {ext : External} (rb : RadioBackend) (F : View → rb.Backend → Type 0)
    (P : rb.Backend → Type 0) (laws : ViewLaws rb F P) (parser : ParserLaws ext) where
  after_feed-Works :
      (o : Option (Session ext × rb.Backend)) (short : Bool) (rest : List SocketRead)
      (c : Connection ext)
      (more : Connection ext × rb.Backend → Option (Connection ext × rb.Backend))
      (next : Session ext × rb.Backend)
      → o ≡ some next
      → SessionInv next.0
      → F (seen next.0) next.1
      → IsUp c
      → ((r : Connection ext × rb.Backend) → Works rb F r → WorksIf rb F (more r))
      → WorksIf rb F (after_feed rb o short rest c more)
  unfolding after_feed
  after_feed-Works o short rest c more next e v p u keep =
      let c' : Connection ext = record c { session = next.0; reads = rest } in
      let w : Works rb F (c', next.1) = (record { session = v; fd = u.fd }, p) in
      rw e (if_rule (WorksIf rb F) (is_closed next.0.phase || short) _ _ w (keep (c', next.1) w))

  read_loop-Works :
      (now : ℕ) (answers : List SocketRead) (c : Connection ext) (b : rb.Backend)
      → Works rb F (c, b)
      → WorksIf rb F (read_loop rb now answers (c, b))
  unfolding read_loop
  read_loop-Works now [] c b (u, p) = (record { session = u.session; fd = u.fd }, p)
  read_loop-Works now (read_bytes bytes ∷ rest) c b (u, p) =
      let (next, e, v) =
        feed-SessionInv rb parser now (take recv_size bytes) c.session b u.session in
      after_feed-Works _ (ltb (length (take recv_size bytes)) recv_size) rest c _ next e v
        (feed-Agree rb F P laws now (take recv_size bytes) c.session b p next e) u
        (λ r w. read_loop-Works now rest r.0 r.1 w)
  read_loop-Works now (read_closed ∷ rest) c b (u, p) =
      (record { session = u.session; fd = u.fd }, p)
  read_loop-Works now (read_again ∷ rest) c b (u, p) =
      (record { session = u.session; fd = u.fd }, p)
  read_loop-Works now (read_interrupted ∷ rest) c b w = read_loop-Works now rest c b w
  read_loop-Works now (read_failed ∷ rest) c b (u, p) =
      (record { session = u.session; fd = u.fd }, p)

  pub service_read-Works :
      (now : ℕ) (c : Connection ext) (b : rb.Backend)
      → Works rb F (c, b)
      → (r : Connection ext × rb.Backend) × (service_read rb now (c, b) ≡ some r) × Works rb F r
  service_read-Works now c b w =
      let (r, e, w') = WorksIf-some rb F _ (read_loop-Works now c.reads c b w) in
      ((flush r.0, r.1), service_read-some rb now c b r e, flush-Works rb F P laws r.0 r.1 w')

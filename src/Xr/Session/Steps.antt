-- ===== src/Xr/Session/Steps.antt =====
-- A session over time: the calls that its connection makes, in any order, with a backend of any kind.
use meshcom_loraham_bridge.Prelude.{
  ℕ, Option, none, some, List, [], ◌∷◌, Bytes, ◌≡◌, refl, arith, ◌∙◌,
}
use meshcom_loraham_bridge.Radio.{RadioBackend}
use meshcom_loraham_bridge.Xr.Codec.{External, ParserLaws}
use meshcom_loraham_bridge.Xr.Outbox.{clear, consume_lem, size}
use meshcom_loraham_bridge.Xr.Session.{Session, open_session, arm, out_consume}
use meshcom_loraham_bridge.Xr.Session.Wire.{wire_run}
use meshcom_loraham_bridge.Xr.Session.Invariant.{SessionInv}
use meshcom_loraham_bridge.Xr.Session.Feed.{feed}
use meshcom_loraham_bridge.Xr.Session.Feed.Keeps.{feed-SessionInv}
use meshcom_loraham_bridge.Xr.Session.Events.{on_events}
use meshcom_loraham_bridge.Xr.Session.Events.Keeps.{on_events-Inv}
use meshcom_loraham_bridge.Xr.Session.Time.{tick}
use meshcom_loraham_bridge.Xr.Session.Time.Keeps.{tick-Inv}

-- `poll_call` is a poll of the backend, whose calls of the sink the session gets in their order.
pub data SessionCall : Type 0 where
  feed_call : ℕ → Bytes → SessionCall
  tick_call : ℕ → SessionCall
  poll_call : ℕ → SessionCall
  consume_call : ℕ → SessionCall

module _ {ext : External} (rb : RadioBackend) where
  unfoldable pub deliver : ℕ → Session ext × rb.Backend → Session ext × rb.Backend
  deliver now (s, b) = let (b', es) = rb.poll now b in (on_events now es s, b')

  unfoldable pub session_step :
      SessionCall → Session ext × rb.Backend → Option (Session ext × rb.Backend)
  session_step (feed_call now bytes) r = feed rb now bytes r
  session_step (tick_call now) r = some (tick rb now r)
  session_step (poll_call now) r = some (deliver now r)
  session_step (consume_call n) (s, b) = some (out_consume n s, b)

  unfoldable pub session_run :
      List SessionCall → Session ext × rb.Backend → Option (Session ext × rb.Backend)
  session_run [] r = some r
  session_run (c ∷ cs) r = elim (session_step c r) [ none ↦ none | some next ↦ session_run cs next ]

  session_run-cons :
      (c : SessionCall) (cs : List SessionCall) (r next : Session ext × rb.Backend)
      → session_step c r ≡ some next
      → session_run (c ∷ cs) r ≡ session_run cs next
  unfolding session_run
  session_run-cons c cs r next e = ground arith

pub out_consume-Inv :
    {ext : External} (n : ℕ) (s : Session ext) → SessionInv s → SessionInv (out_consume n s)
unfolding out_consume
out_consume-Inv n s v = record {
  log = v.log;
  reason = v.reason;
  timer = v.timer;
  expiry = v.expiry;
  flight = v.flight;
  buffer = (consume_lem n s.outbox v.buffer).0;
}

pub deliver-Inv :
    {ext : External} (rb : RadioBackend) (now : ℕ) (s : Session ext) (b : rb.Backend)
    → SessionInv s
    → SessionInv (deliver rb now (s, b)).0
unfolding deliver
deliver-Inv rb now s b v = on_events-Inv now (rb.poll now b).1 s v

module _ {ext : External} (rb : RadioBackend) (laws : ParserLaws ext) where
  session_step-Inv :
      (c : SessionCall) (s : Session ext) (b : rb.Backend)
      → SessionInv s
      → (next : Session ext × rb.Backend) × (session_step rb c (s, b) ≡ some next)
        × SessionInv next.0
  unfolding session_step deliver
  session_step-Inv (feed_call now bytes) s b v = feed-SessionInv rb laws now bytes s b v
  session_step-Inv (tick_call now) s b v = (tick rb now (s, b), refl, tick-Inv rb now s b v)
  session_step-Inv (poll_call now) s b v = (deliver rb now (s, b), refl, deliver-Inv rb now s b v)
  session_step-Inv (consume_call n) s b v = ((out_consume n s, b), refl, out_consume-Inv n s v)

  session_run-Inv :
      (cs : List SessionCall) (s : Session ext) (b : rb.Backend)
      → SessionInv s
      → (last : Session ext × rb.Backend) × (session_run rb cs (s, b) ≡ some last)
        × SessionInv last.0
  unfolding session_run
  session_run-Inv [] s b v = ((s, b), refl, v)
  session_run-Inv (c ∷ cs) s b v =
      let (next, e, w) = session_step-Inv c s b v in
      let (last, e', w') = session_run-Inv cs next.0 next.1 w in
      (last, session_run-cons rb c cs (s, b) next e ∙ e', w')

pub open_session-Inv :
    {ext : External} (rb : RadioBackend) (now : ℕ) (s : Session ext) (b : rb.Backend)
    → SessionInv (open_session rb now (s, b)).0
unfolding open_session arm clear wire_run size
open_session-Inv rb now s b = ground arith

-- Whatever the client sends, the backend reports and the clock says after open_session: if the
-- vendored parser obeys its laws, every call returns; the frames sent follow the automaton, up to
-- what the phase stands for (so RX_PACKET, TX_RESULT and PING only after a CONFIG_RESULT of CFG_OK,
-- and that only after an AUTH_RESULT of AUTH_OK); there is a close reason exactly when the session
-- is closed; a deadline runs exactly in the handshake's phases; a transmission is in flight only in
-- ready; and no more bytes wait in the outbox than it has room for.
pub session_protocol :
    {ext : External} (rb : RadioBackend)
    → ParserLaws ext
    → (now : ℕ) (cs : List SessionCall) (s : Session ext) (b : rb.Backend)
    → (last : Session ext × rb.Backend) × (session_run rb cs (open_session rb now (s, b))
        ≡ some last)
      × SessionInv last.0
session_protocol rb laws now cs s b =
    session_run-Inv rb laws cs (open_session rb now (s, b)).0 (open_session rb now (s, b)).1
      (open_session-Inv rb now s b)

-- ===== src/Xr/Session/Emit.antt =====
-- Sending a frame: what has to be shown of an operation that emits one.
use meshcom_loraham_bridge.Prelude.{ℕ, false, some, Bytes, ◌≡◌, ◌≢◌, inl, inr, Bool-cases}
use meshcom_loraham_bridge.Xr.Codec.{External, XrFrame}
use meshcom_loraham_bridge.Xr.Outbox.{Buffer, IsBuffer}
use meshcom_loraham_bridge.Xr.Session.{
  Session, ready, closed, CloseReason, nothing, internal_error, output_overflow, close, emit,
}
use meshcom_loraham_bridge.Xr.Session.Handle.{then_emitted}
use meshcom_loraham_bridge.Xr.Session.Wire.{WirePhase, start, wire_step, wire_run, wire_run-snoc}
use meshcom_loraham_bridge.Xr.Session.Invariant.{
  SessionInv, Closable, close-Closable, close-SessionInv, queued, emit_rule,
}

-- An open session that has sent what `w` stands for, with no transmission in flight.
pub record Open {ext : External} (w : WirePhase) (s : Session ext) : Type 0 where
  pub log : wire_run start s.sent ≡ some w
  pub buffer : IsBuffer s.outbox
  pub reason : s.close_reason ≡ nothing
  pub opened : s.phase ≢ closed
  pub idle : s.tx_in_flight ≡ false

module _ {ext : External} where
  pub Open-Closable : (w : WirePhase) (s : Session ext) → Open w s → Closable s
  Open-Closable w s v = record {
    log = (w, v.log);
    buffer = v.buffer;
    shut = λ e. absurd (v.opened e);
  }

  queued-Open :
      (w u : WirePhase) (f : XrFrame) (o : Buffer) (s : Session ext)
      → Open w s
      → IsBuffer o
      → wire_step w f ≡ some u
      → Open u (queued f o s)
  queued-Open w u f o s v k e = record {
    log = wire_run-snoc start w u s.sent f v.log e;
    buffer = k;
    reason = v.reason;
    opened = v.opened;
    idle = v.idle;
  }

  -- A frame that may follow is sent, and the session goes on or is closed.
  pub emit-Inv :
      (w u : WirePhase) (type seq : ℕ) (payload : Bytes) (s : Session ext)
      (next : Session ext → Session ext)
      → Open w s
      → wire_step w (record { type = type; seq = seq; payload = payload }) ≡ some u
      → ((s' : Session ext) → Open u s' → SessionInv (next s'))
      → SessionInv (then_emitted (emit type seq payload s) next)
  emit-Inv w u type seq payload s next v e later =
      emit_rule (λ r. SessionInv (then_emitted r next)) type seq payload s v.buffer
        (λ o k. later _ (queued-Open w u _ o s v k e))
        (close-Closable internal_error s (Open-Closable w s v) (λ h. cc))
        (close-Closable output_overflow s (Open-Closable w s v) (λ h. cc))

  -- A frame that may follow is sent, and the session is closed in any case.
  pub emit-close-Inv :
      (w u : WirePhase) (type seq : ℕ) (payload : Bytes) (s : Session ext) (r : CloseReason)
      → Open w s
      → wire_step w (record { type = type; seq = seq; payload = payload }) ≡ some u
      → r ≢ nothing
      → SessionInv (close r (emit type seq payload s).1)
  emit-close-Inv w u type seq payload s r v e ne =
      emit_rule (λ x. SessionInv (close r x.1)) type seq payload s v.buffer
        (λ o k. close-Closable r _ (Open-Closable u _ (queued-Open w u _ o s v k e)) ne)
        (close-SessionInv r _ (close-Closable internal_error s (Open-Closable w s v) (λ h. cc)) ne)
        (close-SessionInv r _ (close-Closable output_overflow s (Open-Closable w s v) (λ h. cc)) ne)

  -- Open in a phase of the handshake.
  pub handshake_Open :
      (w : WirePhase) (s : Session ext)
      → SessionInv s
      → wire_run start s.sent ≡ some w
      → s.phase ≢ ready
      → s.phase ≢ closed
      → s.close_reason ≡ nothing
      → Open w s
  handshake_Open w s v h ne ne' r = record {
    log = h;
    buffer = v.buffer;
    reason = r;
    opened = ne';
    idle = elim (Bool-cases s.tx_in_flight) [ inl e ↦ absurd (ne (v.flight e)) | inr e ↦ e ];
  }

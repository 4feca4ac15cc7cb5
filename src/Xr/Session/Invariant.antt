-- ===== src/Xr/Session/Invariant.antt =====
-- The invariant of a session that has been opened.
use meshcom_loraham_bridge.Prelude.{
  ℕ, Bool, true, false, some, List, [], ◌∷◌, ◌++◌, length, Bytes, ◌≡◌, ◌≢◌, inl, inr, arith,
  Bool-cases, ◌==◌,
}
use meshcom_loraham_bridge.Xr.Codec.{External, XrFrame}
use meshcom_loraham_bridge.Xr.Outbox.{Buffer, IsBuffer, append, append_lem}
use meshcom_loraham_bridge.Xr.Session.{
  Session, Phase, wait_hello, wait_auth, wait_configure, configuring, ready, closed, CloseReason,
  nothing, internal_error, output_overflow, is_closed, close, emit,
}
use meshcom_loraham_bridge.Xr.Session.Wire.{
  WirePhase, start, challenged, admitted, configured, wire_run,
}

-- The frames sent fit the phase.
abbrev pub Log : Phase → List XrFrame → Type 0
Log wait_hello sent = wire_run start sent ≡ some start
Log wait_auth sent = wire_run start sent ≡ some challenged
Log wait_configure sent = wire_run start sent ≡ some admitted
Log configuring sent = wire_run start sent ≡ some admitted
Log ready sent = wire_run start sent ≡ some configured
Log closed sent = (w : WirePhase) × (wire_run start sent ≡ some w)

-- There is a reason exactly when the session is closed.
abbrev pub Reason : Phase → CloseReason → Type 0
Reason closed r = r ≢ nothing
Reason _ r = r ≡ nothing

abbrev pub is_handshake : Phase → Bool
is_handshake ready = false
is_handshake closed = false
is_handshake _ = true

pub record SessionInv {ext : External} (s : Session ext) : Type 0 where
  pub log : Log s.phase s.sent
  pub reason : Reason s.phase s.close_reason
  pub timer : s.deadline_active ≡ is_handshake s.phase
  pub expiry : s.deadline_active ≡ true → s.deadline_reason ≢ nothing
  pub flight : s.tx_in_flight ≡ true → s.phase ≡ ready
  pub buffer : IsBuffer s.outbox

-- What is left of it between two steps of an operation, and is enough to close.
pub record Closable {ext : External} (s : Session ext) : Type 0 where
  pub log : (w : WirePhase) × (wire_run start s.sent ≡ some w)
  pub buffer : IsBuffer s.outbox
  pub shut : s.phase ≡ closed → SessionInv s

Log-closed : (p : Phase) (sent : List XrFrame) → Log p sent → Log closed sent
Log-closed wait_hello sent h = (start, h)
Log-closed wait_auth sent h = (challenged, h)
Log-closed wait_configure sent h = (admitted, h)
Log-closed configuring sent h = (admitted, h)
Log-closed ready sent h = (configured, h)
Log-closed closed sent h = h

module _ {ext : External} where
  pub SessionInv-Closable : (s : Session ext) → SessionInv s → Closable s
  SessionInv-Closable s v = record {
    log = Log-closed s.phase s.sent v.log;
    buffer = v.buffer;
    shut = λ e. v;
  }

  pub close-Closable :
      (r : CloseReason) (s : Session ext) → Closable s → r ≢ nothing → SessionInv (close r s)
  unfolding close is_closed
  close-Closable r s v ne = ground (arith, v.log, v.buffer, v.shut)

  pub close-SessionInv :
      (r : CloseReason) (s : Session ext) → SessionInv s → r ≢ nothing → SessionInv (close r s)
  close-SessionInv r s v ne = close-Closable r s (SessionInv-Closable s v) ne

  -- The session behind a frame that the outbox has taken.
  abbrev pub queued : XrFrame → Buffer → Session ext → Session ext
  queued f o s = record s { outbox = o; sent = s.sent ++ f ∷ [] }

  -- To show something of an emit, show it where the outbox has the frame and where it has not.
  pub emit_rule :
      (P : Bool × Session ext → Type 0) (type seq : ℕ) (payload : Bytes) (s : Session ext)
      → IsBuffer s.outbox
      → ((o : Buffer)
          → IsBuffer o
          → P (true, queued (record { type = type; seq = seq; payload = payload }) o s))
      → P (false, close internal_error s)
      → P (false, close output_overflow s)
      → P (emit type seq payload s)
  unfolding emit
  emit_rule P type seq payload s v taken failed full =
      elim (Bool-cases (length (ext.encode type seq payload) == 0)) [
        | inl e ↦ rw e failed
        | inr e ↦ rw e (elim (Bool-cases (append (ext.encode type seq payload) s.outbox).0) [
          | inl e' ↦ rw e' (taken _ (append_lem (ext.encode type seq payload) s.outbox v).0)
          | inr e' ↦ rw e' full
        ])
      ]

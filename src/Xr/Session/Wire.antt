-- ===== src/Xr/Session/Wire.antt =====
-- The order of the frames that a session sends, as docs and code have it: an independent automaton
-- over the frames alone.
use meshcom_loraham_bridge.Prelude.{
  ℕ, Bool, false, Option, none, some, List, [], ◌∷◌, ◌++◌, ◌==◌, if◌then◌else◌, Bytes, ◌≡◌,
  Option-cases, inl, inr, arith,
}
use meshcom_loraham_bridge.Xr.Codec.{
  XrFrame, msg_hello_ack, msg_auth_challenge, msg_auth_result, msg_config_result, msg_rx_packet,
  msg_tx_result, msg_ping, auth_ok, cfg_ok,
}

-- What the client has been told so far. `ended` is behind a refusal.
pub data WirePhase : Type 0 where
  start greeted challenged admitted configured ended : WirePhase

-- Whether the first byte of a result says that all is well.
abbrev pub first_is : ℕ → Bytes → Bool
first_is code [] = false
first_is code (c ∷ cs) = c == code

-- A frame that may follow, and what the client knows behind it.
unfoldable pub wire_step : WirePhase → XrFrame → Option WirePhase
wire_step start f = if f.type == msg_hello_ack then some greeted else none
wire_step greeted f =
    if f.type == msg_auth_challenge
    then some challenged
    else if f.type == msg_auth_result
    then (if first_is auth_ok f.payload then some admitted else none)
    else none
wire_step challenged f =
    if f.type == msg_auth_result
    then (if first_is auth_ok f.payload then some admitted else some ended)
    else none
wire_step admitted f =
    if f.type == msg_config_result
    then (if first_is cfg_ok f.payload then some configured else some ended)
    else none
wire_step configured f =
    if f.type == msg_rx_packet
    then some configured
    else if f.type == msg_tx_result
    then some configured
    else if f.type == msg_ping
    then some configured
    else none
wire_step ended f = none

unfoldable pub wire_run : WirePhase → List XrFrame → Option WirePhase
wire_run w [] = some w
wire_run w (f ∷ fs) = elim (wire_step w f) [ none ↦ none | some v ↦ wire_run v fs ]

pub wire_run-snoc :
    (w v u : WirePhase) (fs : List XrFrame) (f : XrFrame)
    → wire_run w fs ≡ some v
    → wire_step v f ≡ some u
    → wire_run w (fs ++ f ∷ []) ≡ some u
unfolding wire_run
wire_run-snoc w v u [] f h k = ground arith
wire_run-snoc w v u (x ∷ fs) f h k = elim (Option-cases (wire_step w x)) [
  | inl e ↦ ground arith
  | inr (y, e) ↦ ground (arith, wire_run-snoc y v u fs f)
]

-- ===== src/Xr/Toy.antt =====
-- A codec, a session and a backend to run.
use meshcom_loraham_bridge.Prelude.{
  ◌<◌, true, false, some, [], ◌∷◌, ◌++◌, length, length-append, ◌≡◌, refl, Bytes, arith, codes,
}
use meshcom_loraham_bridge.Radio.{zero_config}
use meshcom_loraham_bridge.Xr.Codec.{
  External, ParserLaws, XrFrame, XrPop, need_more, got_frame, push_ok,
}
use meshcom_loraham_bridge.Xr.Outbox.{Buffer}
use meshcom_loraham_bridge.Xr.Session.{Session, closed, nothing, default_timeouts}
use meshcom_loraham_bridge.Loraham.Backend.{Backend}
use meshcom_loraham_bridge.Loraham.Backend.Steps.{new_backend}

-- Every byte is a frame of that type, and the HMAC of anything is 32 times the byte 9.
unfoldable pub toy_pop : Bytes → XrPop × Bytes
toy_pop [] = (need_more, [])
toy_pop (b ∷ bs) = (got_frame (record { type = b; seq = 1; payload = [] }), bs)

abbrev pub toy_mac : Bytes
toy_mac =
    9 ∷ 9 ∷ 9 ∷ 9 ∷ 9 ∷ 9 ∷ 9 ∷ 9 ∷ 9 ∷ 9 ∷ 9 ∷ 9 ∷ 9 ∷ 9 ∷ 9 ∷ 9 ∷ 9 ∷ 9 ∷ 9 ∷ 9 ∷ 9 ∷ 9 ∷ 9 ∷ 9
    ∷ 9 ∷ 9 ∷ 9 ∷ 9 ∷ 9 ∷ 9 ∷ 9 ∷ 9 ∷ []

abbrev pub toy : External
toy = record {
  Parser = Bytes;
  parser_reset = [];
  have = length;
  parser_pop = toy_pop;
  parser_push = λ p bytes. (push_ok, length bytes, p ++ bytes);
  encode = λ type seq payload. type ∷ payload;
  validate = λ f. 0;
  decode_config = λ f. some zero_config;
  radio_config_valid = λ c. true;
  config_equal = λ a b. true;
  rx_payload_acceptable = λ n. true;
  hmac = λ key message. some toy_mac;
}

pub toy-ParserLaws : ParserLaws toy
unfolding toy_pop
toy-ParserLaws = record {
  pop_shrinks = λ p f q e. shrinks p f q e;
  pop_keeps = λ p q e. keeps p q e;
  push_takes = λ p bytes. (omega arith, length-append p bytes);
  push_all = λ p bytes e. refl;
}
  where
    shrinks :
        (p : Bytes) (f : XrFrame) (q : Bytes) → toy_pop p ≡ (got_frame f, q) → length q < length p
    shrinks [] f q e = absurd (ground (arith, e))
    shrinks (b ∷ bs) f q e = ground (arith, e)

    keeps : (p q : Bytes) → toy_pop p ≡ (need_more, q) → length q ≡ length p
    keeps [] q e = ground (arith, e)
    keeps (b ∷ bs) q e = absurd (ground (arith, e))

abbrev pub empty_outbox : Buffer
empty_outbox = record { cap = 4096; buf = []; head = 0; capacities = [] }

abbrev pub new_session : Session toy
new_session = record {
  auth = record { password = codes "secret" };
  to = default_timeouts;
  nonces = some (1 ∷ 2 ∷ 3 ∷ []) ∷ [];
  parser = [];
  outbox = empty_outbox;
  sent = [];
  phase = closed;
  close_reason = nothing;
  deadline_active = false;
  deadline_at = 0;
  deadline_reason = nothing;
  nonce = [];
  applied_cfg = zero_config;
  requested_cfg = zero_config;
  config_op_token = 0;
  tx_in_flight = false;
  tx_seq = 0;
  tx_deadline_at = 0;
  awaiting_pong = false;
  next_ping_at = 0;
  pong_deadline_at = 0;
  ping_sent_at = 0;
  last_pong_rtt_ms = 0;
  late_pong_warns = 0;
}

abbrev pub daemon : Backend
daemon = new_backend 5000 10000

-- ===== src/Xr/Codec.antt =====
-- What a session uses of third_party/external_radio_protocol, the vendored codec of the XR protocol,
-- and of OpenSSL: parameters, with the facts that the session relies on.
use meshcom_loraham_bridge.Prelude.{ℕ, ◌+◌, ◌≤◌, ◌<◌, Bool, Option, length, Bytes, ◌≡◌}
use meshcom_loraham_bridge.Radio.{RadioConfig}
use meshcom_loraham_bridge.Auth.{Hmac}

pub record XrFrame : Type 0 where
  pub type : ℕ
  pub seq : ℕ
  pub payload : Bytes

pub data XrPop : Type 0 where
  need_more : XrPop
  got_frame : XrFrame → XrPop
  pop_error : XrPop

pub data XrPush : Type 0 where
  push_ok push_need_drain push_invalid : XrPush

-- `encode` returns no bytes where it fails, as `n == 0`.
pub record External : Type 1 where
  pub Parser : Type 0
  pub parser_reset : Parser
  pub have : Parser → ℕ
  pub parser_pop : Parser → XrPop × Parser
  pub parser_push : Parser → Bytes → XrPush × ℕ × Parser
  pub encode : (type seq : ℕ) → Bytes → Bytes
  pub validate : XrFrame → ℕ
  pub decode_config : XrFrame → Option RadioConfig
  pub radio_config_valid : RadioConfig → Bool
  pub config_equal : RadioConfig → RadioConfig → Bool
  pub rx_payload_acceptable : ℕ → Bool
  pub hmac : Hmac

-- A frame leaves fewer bytes in the parser; a push takes at most what is offered, and what it takes
-- is what the parser gains. The parser keeps its bytes while it needs more.
pub record ParserLaws (ext : External) : Type 0 where
  pub pop_shrinks :
      (p : ext.Parser) (f : XrFrame) (q : ext.Parser)
      → ext.parser_pop p ≡ (got_frame f, q)
      → ext.have q < ext.have p
  pub pop_keeps : (p q : ext.Parser) → ext.parser_pop p ≡ (need_more, q) → ext.have q ≡ ext.have p
  pub push_takes :
      (p : ext.Parser) (bytes : Bytes)
      → let (status, took, q) = ext.parser_push p bytes in
        (took ≤ length bytes) × (ext.have q ≡ ext.have p + took)
  pub push_all :
      (p : ext.Parser) (bytes : Bytes)
      → let (status, took, q) = ext.parser_push p bytes in status ≡ push_ok → took ≡ length bytes

abbrev pub msg_hello : ℕ
msg_hello = 1

abbrev pub msg_hello_ack : ℕ
msg_hello_ack = 2

abbrev pub msg_auth_challenge : ℕ
msg_auth_challenge = 3

abbrev pub msg_auth_response : ℕ
msg_auth_response = 4

abbrev pub msg_auth_result : ℕ
msg_auth_result = 5

abbrev pub msg_configure : ℕ
msg_configure = 6

abbrev pub msg_config_result : ℕ
msg_config_result = 7

abbrev pub msg_rx_packet : ℕ
msg_rx_packet = 8

abbrev pub msg_tx_request : ℕ
msg_tx_request = 9

abbrev pub msg_tx_result : ℕ
msg_tx_result = 10

abbrev pub msg_ping : ℕ
msg_ping = 11

abbrev pub msg_pong : ℕ
msg_pong = 12

abbrev pub msg_error : ℕ
msg_error = 13

abbrev pub version : ℕ
version = 1

abbrev pub auth_ok : ℕ
auth_ok = 0

abbrev pub auth_fail : ℕ
auth_fail = 1

abbrev pub cfg_ok : ℕ
cfg_ok = 0

abbrev pub cfg_unsupported : ℕ
cfg_unsupported = 1

abbrev pub cfg_invalid : ℕ
cfg_invalid = 2

abbrev pub txr_success : ℕ
txr_success = 0

abbrev pub txr_channel_busy : ℕ
txr_channel_busy = 1

abbrev pub txr_timeout : ℕ
txr_timeout = 2

abbrev pub txr_radio_error : ℕ
txr_radio_error = 3

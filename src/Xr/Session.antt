-- ===== src/Xr/Session.antt =====
-- src/xr/xr_session.h: the state of XrSession, and the small operations of xr_session.cpp that the
-- others are made of. The larger ones are in the children.
pub mod Handle
pub mod Feed
pub mod Events
pub mod Time
pub mod Wire
pub mod Invariant
pub mod Emit
pub mod Keeps
pub mod Steps
pub mod View
pub mod Gate
pub mod Flight
pub mod Agree
use meshcom_loraham_bridge.Prelude.{
  ℕ, ◌+◌, ◌/◌, ◌%◌, Bool, true, false, Option, List, [], ◌∷◌, ◌++◌, ◌==◌, if◌then◌else◌, length,
  Bytes, add64,
}
use meshcom_loraham_bridge.Radio.{RadioConfig, zero_config, RadioBackend}
use meshcom_loraham_bridge.Radio.{TxOutcome, success, channel_busy, timeout, radio_error}
use meshcom_loraham_bridge.Auth.{AuthConfig}
use meshcom_loraham_bridge.Xr.Codec.{External, XrFrame}
use meshcom_loraham_bridge.Xr.Codec.{
  msg_hello, msg_auth_response, msg_configure, msg_tx_request, msg_pong, msg_error, txr_success,
  txr_channel_busy, txr_timeout, txr_radio_error,
}
use meshcom_loraham_bridge.Xr.Outbox.{Buffer, append, clear, size, consume}

pub data Phase : Type 0 where
  wait_hello wait_auth wait_configure configuring ready closed : Phase

-- `nothing` is CloseReason::None.
pub data CloseReason : Type 0 where
  nothing output_overflow malformed_frame parser_error bad_state remote_error auth_failed auth_error
        config_failed backend_failure handshake_timeout auth_timeout config_timeout pong_timeout
        tx_timeout_uncertain internal_error :
      CloseReason

pub record Timeouts : Type 0 where
  pub handshake_ms : ℕ
  pub auth_ms : ℕ
  pub config_ms : ℕ
  pub tx_ms : ℕ
  pub ping_interval_ms : ℕ
  pub pong_timeout_ms : ℕ

abbrev pub default_timeouts : Timeouts
default_timeouts = record {
  handshake_ms = 5000;
  auth_ms = 5000;
  config_ms = 5000;
  tx_ms = 10000;
  ping_interval_ms = 15000;
  pong_timeout_ms = 10000;
}

-- `nonces` holds what `random_nonce` answers in the next calls. `sent` is not a field of the class:
-- it records the frames that the outbox has accepted since `open_session`, which is the source's `open`, oldest first.
pub record Session (ext : External) : Type 0 where
  pub auth : AuthConfig
  pub to : Timeouts
  pub nonces : List (Option Bytes)
  pub parser : ext.Parser
  pub outbox : Buffer
  pub sent : List XrFrame
  pub phase : Phase
  pub close_reason : CloseReason
  pub deadline_active : Bool
  pub deadline_at : ℕ
  pub deadline_reason : CloseReason
  pub nonce : Bytes
  pub applied_cfg : RadioConfig
  pub requested_cfg : RadioConfig
  pub config_op_token : ℕ
  pub tx_in_flight : Bool
  pub tx_seq : ℕ
  pub tx_deadline_at : ℕ
  pub awaiting_pong : Bool
  pub next_ping_at : ℕ
  pub pong_deadline_at : ℕ
  pub ping_sent_at : ℕ
  pub last_pong_rtt_ms : ℕ
  pub late_pong_warns : ℕ

unfoldable pub put16 : ℕ → Bytes
put16 v = (v / 256 % 256) ∷ (v % 256) ∷ []

unfoldable pub put32 : ℕ → Bytes
put32 v = (v / 16777216 % 256) ∷ (v / 65536 % 256) ∷ (v / 256 % 256) ∷ (v % 256) ∷ []

unfoldable pub pack_config : RadioConfig → Bytes
unfolding put16 put32
pack_config c =
    put32 c.freq_hz
    ++ (put32 c.bw_hz
        ++ ((c.sf % 256)
            ∷ (c.cr_denom % 256)
            ∷ (put16 c.sync_word
                ++ (put16 c.preamble
                    ++ ((c.tx_power_dbm % 256) ∷ (c.crc % 256) ∷ (c.ldro % 256) ∷ [])))))

unfoldable pub is_client_message : ℕ → Bool
is_client_message type =
    if type == msg_hello
    then true
    else if type == msg_auth_response
    then true
    else if type == msg_configure
    then true
    else if type == msg_tx_request
    then true
    else if type == msg_pong
    then true
    else type == msg_error

unfoldable pub tx_outcome_to_wire : TxOutcome → ℕ
tx_outcome_to_wire success = txr_success
tx_outcome_to_wire channel_busy = txr_channel_busy
tx_outcome_to_wire timeout = txr_timeout
tx_outcome_to_wire radio_error = txr_radio_error

unfoldable pub is_closed : Phase → Bool
is_closed closed = true
is_closed _ = false

module _ {ext : External} where
  unfoldable pub arm : ℕ → ℕ → CloseReason → Session ext → Session ext
  arm now timeout_ms on_expire s = record s {
    deadline_active = true;
    deadline_at = add64 now timeout_ms;
    deadline_reason = on_expire;
  }

  unfoldable pub disarm : Session ext → Session ext
  disarm s = record s { deadline_active = false }

  unfoldable pub close : CloseReason → Session ext → Session ext
  unfolding is_closed
  close reason s = if is_closed s.phase then s else record s {
    close_reason = reason;
    phase = closed;
    deadline_active = false;
    tx_in_flight = false;
  }

  -- Whether the frame is in the outbox; the session is closed where it is not.
  unfoldable pub emit : ℕ → ℕ → Bytes → Session ext → Bool × Session ext
  emit type seq payload s =
      let bytes = ext.encode type seq payload in
      let (fits, outbox) = append bytes s.outbox in
      if length bytes == 0
      then (false, close internal_error s)
      else if fits
      then (
        true,
        record s {
          outbox = outbox;
          sent = s.sent ++ (record { type = type; seq = seq; payload = payload }) ∷ [];
        },
      )
      else (false, close output_overflow s)

  unfoldable pub enter_ready : ℕ → Session ext → Session ext
  enter_ready now s = record (disarm s) {
    phase = ready;
    awaiting_pong = false;
    next_ping_at = add64 now s.to.ping_interval_ms;
  }

  unfoldable pub out_consume : ℕ → Session ext → Session ext
  out_consume n s = record s { outbox = consume n s.outbox }

unfoldable pub open_session :
    {ext : External} (rb : RadioBackend) → ℕ → Session ext × rb.Backend → Session ext × rb.Backend
open_session {ext} rb now (s, b) =
    let fresh = record s {
      parser = ext.parser_reset;
      outbox = clear s.outbox;
      sent = [];
      phase = wait_hello;
      close_reason = nothing;
      tx_in_flight = false;
      awaiting_pong = false;
    } in
    (arm now s.to.handshake_ms handshake_timeout fresh, rb.start b)

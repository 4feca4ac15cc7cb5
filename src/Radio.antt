-- ===== src/Radio.antt =====
-- src/backend/radio_backend.h: the data that a session and a backend exchange, the events that a
-- backend delivers to its sink, and the backend interface that a session drives.
use meshcom_loraham_bridge.Prelude.{ℕ, Bool, List, Bytes}

-- The most bytes of a packet.
abbrev pub max_lora_payload : ℕ
max_lora_payload = 255

pub data TxOutcome : Type 0 where
  success channel_busy timeout radio_error : TxOutcome

-- RSSI and SNR are int16_t, kept as their 16-bit patterns.
pub record RxEvent : Type 0 where
  pub rssi_cdbm : ℕ
  pub snr_cdb : ℕ
  pub payload : Bytes

-- `tx_power_dbm` is an int8_t, kept as its 8-bit pattern.
pub record RadioConfig : Type 0 where
  pub freq_hz : ℕ
  pub bw_hz : ℕ
  pub sf : ℕ
  pub cr_denom : ℕ
  pub sync_word : ℕ
  pub preamble : ℕ
  pub tx_power_dbm : ℕ
  pub crc : ℕ
  pub ldro : ℕ

abbrev pub zero_config : RadioConfig
zero_config = record {
  freq_hz = 0;
  bw_hz = 0;
  sf = 0;
  cr_denom = 0;
  sync_word = 0;
  preamble = 0;
  tx_power_dbm = 0;
  crc = 0;
  ldro = 0;
}

pub record ConfigureResult : Type 0 where
  pub applied : Bool
  pub effective : RadioConfig

-- The calls of a `BackendSink`, in the order in which `poll` makes them. None of the sink's
-- methods calls the backend back, so a backend's poll is a state change and a list of these.
pub data SinkEvent : Type 0 where
  rx : RxEvent → SinkEvent
  tx_complete : TxOutcome → SinkEvent
  backend_failure : SinkEvent
  configure_complete : ℕ → ConfigureResult → SinkEvent

-- The virtual methods of `RadioBackend`. `now` is what the clock reads during the call.
pub record RadioBackend : Type 1 where
  pub Backend : Type 0
  pub set_sink : Bool → Backend → Backend
  pub begin_configure : (now : ℕ) → RadioConfig → Backend → ℕ × Backend
  pub start : Backend → Backend
  pub stop : Backend → Backend
  pub ready : Backend → Bool
  pub next_deadline_ms : Backend → ℕ
  pub submit_tx : Bytes → Backend → Bool × Backend
  pub abandon_pending_tx : (now : ℕ) → Backend → Backend
  pub poll : (now : ℕ) → Backend → Backend × List SinkEvent

-- What holds of a backend whose sink is set, or not, and is kept by every call of its methods.
pub record BackendLaws (rb : RadioBackend) (P : Bool → rb.Backend → Type 0) : Type 0 where
  pub set_sink_keeps : (k s : Bool) (b : rb.Backend) → P k b → P s (rb.set_sink s b)
  pub begin_configure_keeps :
      (k : Bool) (now : ℕ) (cfg : RadioConfig) (b : rb.Backend)
      → P k b
      → P k (rb.begin_configure now cfg b).1
  pub start_keeps : (k : Bool) (b : rb.Backend) → P k b → P k (rb.start b)
  pub stop_keeps : (k : Bool) (b : rb.Backend) → P k b → P k (rb.stop b)
  pub submit_tx_keeps : (k : Bool) (rf : Bytes) (b : rb.Backend) → P k b → P k (rb.submit_tx rf b).1
  pub abandon_pending_tx_keeps :
      (k : Bool) (now : ℕ) (b : rb.Backend) → P k b → P k (rb.abandon_pending_tx now b)
  pub poll_keeps : (k : Bool) (now : ℕ) (b : rb.Backend) → P k b → P k (rb.poll now b).0

-- ===== src/Loraham/Backend/Steps.antt =====
-- LorahamBackend over time: the calls that its owner and its environment make, in any order.
pub mod Count
pub mod Fault
use meshcom_loraham_bridge.Prelude.{
  ℕ, ◌+◌, ◌≤◌, Bool, true, false, List, [], ◌∷◌, ◌++◌, length, ◌≡◌, ◌⊎◌, inl, inr, refl, subst,
  arith, Bytes,
}
use meshcom_loraham_bridge.Radio.{RadioConfig, SinkEvent, zero_config}
use meshcom_loraham_bridge.Loraham.Framing.{parser_reset}
use meshcom_loraham_bridge.Loraham.Link.{Send, Recv, ConnectState}
use meshcom_loraham_bridge.Loraham.Link
use meshcom_loraham_bridge.Loraham.Backend.{
  Backend, State, disconnected, connecting, configuring, ready, tx_writing, tx_pending, draining,
  faulted, set_sink, start, stop, is_ready, reset_link_unconfigured,
}
use meshcom_loraham_bridge.Loraham.Backend.Invariant.{
  Inv, Owner, DaemonOwns, set_sink-Inv, start-Inv, stop-Inv,
}
use meshcom_loraham_bridge.Loraham.Backend.Configure.{begin_configure}
use meshcom_loraham_bridge.Loraham.Backend.Configure.Keeps.{begin_configure-Inv}
use meshcom_loraham_bridge.Loraham.Backend.Transmit.{submit_tx, submit_frame, abandon_pending_tx}
use meshcom_loraham_bridge.Loraham.Backend.Transmit.Keeps.{submit_tx-Inv, abandon_pending_tx-Inv}
use meshcom_loraham_bridge.Loraham.Backend.Poll.{poll, poll_step}
use meshcom_loraham_bridge.Loraham.Backend.Poll.Keeps.{poll-Inv}
use meshcom_loraham_bridge.Loraham.Backend.Poll.Credit.{poll-completes}
use meshcom_loraham_bridge.Loraham.Backend.Credit.{completes, awaited}

-- What the next calls on the sockets answer.
pub record Answers : Type 0 where
  pub begins : List Bool
  pub connects : List ConnectState
  pub conf_room : List Send
  pub data_room : List Send
  pub conf_in : List Recv
  pub data_in : List Recv

pub data Call : Type 0 where
  set_sink_call : Bool → Call
  begin_configure_call : ℕ → RadioConfig → Call
  start_call : Call
  stop_call : Call
  submit_tx_call : Bytes → Call
  abandon_pending_tx_call : ℕ → Call
  poll_call : ℕ → Call
  environment : Answers → Call

-- What a call tells its caller.
pub data Reply : Type 0 where
  nothing : Reply
  token : ℕ → Reply
  accepted : Bool → Reply
  sink_calls : List SinkEvent → Reply

unfoldable pub answer : Answers → Backend → Backend
answer a b = record b {
  link = record b.link {
    begins = a.begins;
    connects = a.connects;
    conf_room = a.conf_room;
    data_room = a.data_room;
    conf_in = a.conf_in;
    data_in = a.data_in;
  };
}

unfoldable pub step : Call → Backend → Reply × Backend
unfolding answer
step (set_sink_call s) b = (nothing, set_sink s b)
step (begin_configure_call now cfg) b = let (t, b') = begin_configure now cfg b in (token t, b')
step start_call b = (nothing, start b)
step stop_call b = (nothing, stop b)
step (submit_tx_call rf) b = let (ok, b') = submit_tx rf b in (accepted ok, b')
step (abandon_pending_tx_call now) b = (nothing, abandon_pending_tx now b)
step (poll_call now) b = let (b', es) = poll now b in (sink_calls es, b')
step (environment a) b = (nothing, answer a b)

unfoldable pub run : List Call → Backend → List Reply × Backend
run [] b = ([], b)
run (c ∷ cs) b = let (r, next) = step c b in let (rs, last) = run cs next in (r ∷ rs, last)

-- The state that the constructor leaves, with the transport not yet connected.
abbrev pub new_backend : ℕ → ℕ → Backend
new_backend config_timeout drain_timeout = record {
  link = record {
    is_open = false;
    data_sent = [];
    begins = [];
    connects = [];
    conf_room = [];
    data_room = [];
    conf_in = [];
    data_in = [];
  };
  config_timeout_ms = config_timeout;
  drain_timeout_ms = drain_timeout;
  sink = false;
  started = false;
  state = disconnected;
  config_token = 0;
  next_token = 0;
  config_deadline_at = 0;
  pending_cfg = zero_config;
  conf_out = [];
  conf_out_off = 0;
  awaiting_status = false;
  conf_line = [];
  drain_deadline_at = 0;
  tx_out = [];
  tx_out_off = 0;
  tx_epoch = 0;
  pending_epoch = 0;
  parser = record { buf = [] };
  events = [];
  rf_log = [];
}

pub answer-Inv : (a : Answers) (b : Backend) → Inv b → Inv (answer a b)
unfolding answer
answer-Inv a b v = ground arith

pub step-Inv : (c : Call) (b : Backend) → Inv b → Inv (step c b).1
unfolding step
step-Inv (set_sink_call s) b v = set_sink-Inv b s v
step-Inv (begin_configure_call now cfg) b v = begin_configure-Inv now cfg b v
step-Inv start_call b v = start-Inv b v
step-Inv stop_call b v = stop-Inv b v
step-Inv (submit_tx_call rf) b v = submit_tx-Inv rf b v
step-Inv (abandon_pending_tx_call now) b v = abandon_pending_tx-Inv now b v
step-Inv (poll_call now) b v = poll-Inv now b v
step-Inv (environment a) b v = answer-Inv a b v

pub run-Inv : (cs : List Call) (b : Backend) → Inv b → Inv (run cs b).1
unfolding run
run-Inv [] b v = v
run-Inv (c ∷ cs) b v = run-Inv cs (step c b).1 (step-Inv c b v)

pub new_backend-Inv : (c d : ℕ) → Inv (new_backend c d)
new_backend-Inv c d = ground arith

-- Whatever calls have been made since the constructor: in tx_pending and in draining the daemon has
-- got last, on the open DATA socket, every byte of the one frame that the backend remembers, which is
-- a TX_PACKET of 1 to 255 bytes.
pub run-DaemonOwns :
    (config_timeout drain_timeout : ℕ) (cs : List Call)
    → let b = (run cs (new_backend config_timeout drain_timeout)).1 in
      (b.state ≡ tx_pending) ⊎ (b.state ≡ draining) → DaemonOwns b
run-DaemonOwns c d cs (inl e) =
    subst (λ (s : State). Owner s (run cs (new_backend c d)).1) e
      (run-Inv cs _ (new_backend-Inv c d)).owner
run-DaemonOwns c d cs (inr e) =
    subst (λ (s : State). Owner s (run cs (new_backend c d)).1) e
      (run-Inv cs _ (new_backend-Inv c d)).owner

-- ===== src/Loraham/Backend/Tests.antt =====
-- Concrete runs of the backend, and the theorems at them.
use meshcom_loraham_bridge.Prelude.{
  false, ◌<◌, ℕ, ◌+◌, ◌≤◌, true, List, [], ◌∷◌, ◌≡◌, ◌⊎◌, inl, refl, codes, All, arith,
}
use meshcom_loraham_bridge.Radio.{RadioConfig}
use meshcom_loraham_bridge.Loraham.Link.{
  accepts, received, connected, begin_connect, poll_connect, conf_writes, conf_reads, data_writes,
  data_reads, send_loop,
}
use meshcom_loraham_bridge.Loraham.Framing.{
  parser_reset, starts_with, bytes_eq, status_line_radio_ready, encode_tx_packet, parser_pop,
}
use meshcom_loraham_bridge.Loraham.Config.{
  validate_config, build_set_command, check_fields, select_band, bandwidth_token, find_token,
  set_line, decimal, micros, hex_byte,
}
use meshcom_loraham_bridge.Loraham.Backend.{
  Backend, disconnected, tx_pending, draining, faulted, set_sink, start, is_ready, emit,
  enter_fault,
}
use meshcom_loraham_bridge.Loraham.Backend.Invariant.{Inv, DaemonOwns}
use meshcom_loraham_bridge.Loraham.Backend.Conf.{
  pump_conf, conf_loop, scan_lines, line_action, strip_right, is_broadcast_line,
}
use meshcom_loraham_bridge.Loraham.Backend.Configure.{
  begin_configure, advance_connect, advance_configure, config_succeed, command_bytes,
}
use meshcom_loraham_bridge.Loraham.Backend.Transmit.{
  submit_tx, submit_frame, pump_tx_write, abandon_pending_tx,
}
use meshcom_loraham_bridge.Loraham.Backend.Receive.{data_loop, pump_chunk}
use meshcom_loraham_bridge.Loraham.Backend.Poll.{poll, poll_step, advance_operational}
use meshcom_loraham_bridge.Radio.{configure_complete, zero_config}
use meshcom_loraham_bridge.Loraham.Backend.{connecting}
use meshcom_loraham_bridge.Loraham.Backend.Configure.Outcome.{Outcome}
use meshcom_loraham_bridge.Loraham.Backend.Poll.Outcome.{poll_configuring}
use meshcom_loraham_bridge.Loraham.Backend.Credit.{completes, awaited}
use meshcom_loraham_bridge.Loraham.Backend.Transmit.Keeps.{abandon_pending_tx-Inv}
use meshcom_loraham_bridge.Loraham.Backend.Poll.Keeps.{poll-Inv}
use meshcom_loraham_bridge.Loraham.Backend.Poll.Credit.{poll-completes}
use meshcom_loraham_bridge.Loraham.Backend.Poll.Quiet.{poll_draining}
use meshcom_loraham_bridge.Loraham.Backend.Steps.Count.{results, submits, run-results}
use meshcom_loraham_bridge.Loraham.Backend.Steps.Fault.{IsRefusal, run_faulted}
use meshcom_loraham_bridge.Loraham.Backend.Steps.{
  Answers, Call, set_sink_call, begin_configure_call, start_call, submit_tx_call, poll_call,
  environment, step, run, new_backend, run-DaemonOwns, run-Inv, new_backend-Inv,
}

-- The MeshCom profile on 433 MHz.
abbrev profile : RadioConfig
profile = record {
  freq_hz = 433175000;
  bw_hz = 250000;
  sf = 11;
  cr_denom = 6;
  sync_word = 0x2B;
  preamble = 32;
  tx_power_dbm = 17;
  crc = 1;
  ldro = 0;
}

abbrev daemon_up : Answers
daemon_up = record {
  begins = true ∷ [];
  connects = connected ∷ [];
  conf_room = accepts 1000 ∷ [];
  data_room = [];
  conf_in = received (codes "OK\nSTATUS RADIO=READY\n") ∷ [];
  data_in = [];
}

-- The daemon takes five bytes of the frame first, and the rest later.
abbrev daemon_takes : ℕ → Answers
daemon_takes n = record {
  begins = [];
  connects = [];
  conf_room = [];
  data_room = accepts n ∷ [];
  conf_in = [];
  data_in = [];
}

-- From the constructor to a packet that the daemon owns.
abbrev to_pending : List Call
to_pending =
    set_sink_call true
    ∷ start_call
    ∷ environment daemon_up
    ∷ begin_configure_call 0 profile
    ∷ poll_call 1
    ∷ environment (daemon_takes 5)
    ∷ submit_tx_call (7 ∷ 8 ∷ 9 ∷ [])
    ∷ environment (daemon_takes 100)
    ∷ poll_call 2
    ∷ []

to_pending_state : (run to_pending (new_backend 5000 10000)).1.state ≡ tx_pending
unfolding run step set_sink start begin_configure begin_connect validate_config build_set_command
    parser_reset poll poll_step advance_connect poll_connect advance_configure conf_writes send_loop
    pump_conf conf_reads conf_loop scan_lines line_action strip_right is_broadcast_line
    config_succeed emit submit_tx is_ready submit_frame pump_tx_write data_writes
    advance_operational data_loop data_reads command_bytes check_fields select_band bandwidth_token
    find_token set_line decimal micros hex_byte starts_with bytes_eq status_line_radio_ready
    encode_tx_packet parser_pop pump_chunk
to_pending_state = refl

abbrev fresh : Backend
fresh = new_backend 5000 10000

abbrev pending : Backend
pending = (run to_pending fresh).1

pending-Inv : Inv pending
pending-Inv = run-Inv to_pending fresh (new_backend-Inv 5000 10000)

run-DaemonOwns_example : DaemonOwns pending
run-DaemonOwns_example = run-DaemonOwns 5000 10000 to_pending (inl to_pending_state)

run-results_example :
    results (run to_pending fresh).0 + awaited pending.state ≤ submits (run to_pending fresh).0
run-results_example = run-results 5000 10000 to_pending

poll-Inv_example : Inv (poll 3 pending).0
poll-Inv_example = poll-Inv 3 pending pending-Inv

poll-completes_example :
    completes (poll 3 pending).1 + awaited (poll 3 pending).0.state ≤ awaited pending.state
poll-completes_example = poll-completes 3 pending pending-Inv

-- The client is gone while the daemon owns the packet.
abbrev left : Backend
left = abandon_pending_tx 3 pending

left_draining : left.state ≡ draining
unfolding abandon_pending_tx
left_draining = ground (arith, to_pending_state)

poll_draining_example :
    ((poll 4 left).1 ≡ [])
    × (((poll 4 left).0.state ≡ draining)
        ⊎ (((poll 4 left).0.state ≡ disconnected) ⊎ ((poll 4 left).0.state ≡ faulted)))
    × ((4 < left.drain_deadline_at) ⊎ ((poll 4 left).0.state ≡ faulted))
poll_draining_example =
    poll_draining 4 left (abandon_pending_tx-Inv 3 pending pending-Inv) left_draining

-- The drain deadline has passed.
abbrev lost : Backend
lost = enter_fault left

lost_faulted : lost.state ≡ faulted
unfolding enter_fault
lost_faulted = refl

run_faulted_example :
    All IsRefusal (run to_pending lost).0 × ((run to_pending lost).1.state ≡ faulted)
run_faulted_example = run_faulted to_pending lost lost_faulted

-- The backend waits for the daemon's answer to the connect.
abbrev waiting : Backend
waiting = record fresh {
  link = record fresh.link { is_open = true };
  sink = true;
  state = connecting;
  config_token = 7;
  config_deadline_at = 9;
}

waiting-Inv : Inv waiting
waiting-Inv = record {
  parser_bounded = omega arith;
  line_bounded = omega arith;
  owner = (refl, refl);
}

poll_configuring_example :
    Outcome 7 waiting.pending_cfg (poll 3 waiting).0.state (poll 3 waiting).1
    × ((3 < 9)
        ⊎ (((poll 3 waiting).0.state ≡ disconnected)
            × ((poll 3 waiting).1
                ≡ configure_complete 7 (record { applied = false; effective = zero_config }) ∷ [])))
poll_configuring_example = poll_configuring 3 waiting waiting-Inv (inl refl) refl

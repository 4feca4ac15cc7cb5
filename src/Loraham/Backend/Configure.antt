-- ===== src/Loraham/Backend/Configure.antt =====
-- loraham_backend.cpp, the configuration: begin_configure, advance_connect, advance_configure,
-- config_succeed and config_fail.
pub mod Keeps
pub mod Sink
pub mod Credit
pub mod Outcome
pub mod View
use meshcom_loraham_bridge.Prelude.{
  ℕ, ◌+◌, Bool, true, false, Option, none, some, List, [], ◌∷◌, ◌++◌, ltb, leb, if◌then◌else◌,
  length, drop, Bytes, codes, add64, inc32,
}
use meshcom_loraham_bridge.Radio.{RadioConfig, zero_config, configure_complete}
use meshcom_loraham_bridge.Loraham.Config.{validate_config, build_set_command, Band}
use meshcom_loraham_bridge.Loraham.Framing.{parser_reset}
use meshcom_loraham_bridge.Loraham.Link.{
  begin_connect, poll_connect, ConnectState, send_loop, conf_writes, flush_failed, Written, TxFlush,
  complete, partial,
}
use meshcom_loraham_bridge.Loraham.Link
use meshcom_loraham_bridge.Loraham.Backend.{
  Backend, disconnected, connecting, configuring, ready, tx_writing, tx_pending, draining, faulted,
  emit, reset_link_unconfigured,
}
use meshcom_loraham_bridge.Loraham.Backend.Conf.{
  ConfResult, pump_conf, conf_idle, conf_status, conf_failed,
}

unfoldable pub command_bytes : Bytes → Bytes
command_bytes set_cmd =
    codes "SET TXMODE=MANAGED\n"
    ++ (codes "SET TXQUEUE=1\n" ++ (codes "SET TXRESULT=1\n" ++ (set_cmd ++ codes "GET STATUS\n")))

-- The rest of begin_configure once the connect is under way.
arm_configure : ℕ → RadioConfig → Bytes → Backend → ℕ × Backend
arm_configure now requested set_cmd b =
    let token = inc32 b.next_token in
    (
      token,
      record b {
        conf_out = command_bytes set_cmd;
        conf_out_off = 0;
        awaiting_status = false;
        conf_line = [];
        parser = parser_reset b.parser;
        pending_cfg = requested;
        state = connecting;
        config_deadline_at = add64 now b.config_timeout_ms;
        config_token = token;
        next_token = token;
      },
    )

connect_configure : ℕ → RadioConfig → Bytes → Band → Backend → ℕ × Backend
unfolding arm_configure
connect_configure now requested set_cmd band b =
    let (under_way, l) = begin_connect band b.link in
    let b' = record b { link = l } in
    if under_way then arm_configure now requested set_cmd b' else (0, b')

-- The band is there exactly when the configuration has no error.
start_configure : ℕ → RadioConfig → Backend → ℕ × Backend
unfolding connect_configure
start_configure now requested b = elim (validate_config requested).1 [
  | none ↦ (0, b)
  | some band ↦ elim (build_set_command requested) [
    | none ↦ (0, b)
    | some set_cmd ↦ connect_configure now requested set_cmd band b
  ]
]

-- The token is 0 where the request is refused.
unfoldable pub begin_configure : ℕ → RadioConfig → Backend → ℕ × Backend
unfolding start_configure
begin_configure now requested b = elim b.state [
  | disconnected ↦ start_configure now requested b
  | ready ↦ start_configure now requested b
  | _ ↦ (0, b)
]

unfoldable pub config_succeed : Backend → Backend
config_succeed b =
    emit (configure_complete b.config_token (record { applied = true; effective = b.pending_cfg }))
      (record b {
        state = ready;
        tx_epoch = inc32 b.tx_epoch;
        conf_out = [];
        conf_out_off = 0;
        awaiting_status = false;
      })

unfoldable pub config_fail : Backend → Backend
config_fail b =
    emit (configure_complete b.config_token (record { applied = false; effective = zero_config }))
      (reset_link_unconfigured b)

-- Step 1, the commands that are still to be written.
write_commands : Backend → Written × Backend
write_commands b =
    let w = send_loop (conf_writes b.link) (drop b.conf_out_off b.conf_out) in
    (
      w,
      record b {
        link = record b.link { conf_room = w.room };
        conf_out_off = b.conf_out_off + w.count;
      },
    )

-- Step 2, the reply.
unfoldable pub after_status : ConfResult × Backend → Backend
after_status (conf_failed, b) = config_fail b
after_status (conf_idle, b) = b
after_status (conf_status true, b) = config_succeed b
after_status (conf_status false, b) = config_fail b

read_status : Backend → Backend
unfolding after_status
read_status b = if b.awaiting_status then after_status (pump_conf true b) else b

-- Once all commands are out, the reply is expected.
mark_written : Backend → Backend
mark_written b =
    if leb (length b.conf_out) b.conf_out_off then record b { awaiting_status = true } else b

after_write : TxFlush → Backend → Backend
unfolding read_status mark_written
after_write flush_failed b = config_fail b
after_write complete b = read_status (mark_written b)
after_write partial b = read_status (mark_written b)

unfoldable pub advance_configure : Backend → Backend
unfolding write_commands after_write
advance_configure b = let (w, b') = write_commands b in after_write w.flush b'

unfoldable pub advance_connect : Backend → Backend
advance_connect b =
    let (c, l) = poll_connect b.link in
    let b' = record b { link = l } in
    elim c [
      | ConnectState.failed ↦ config_fail b'
      | ConnectState.connecting ↦ b'
      | ConnectState.connected ↦ advance_configure (record b' { state = configuring })
    ]

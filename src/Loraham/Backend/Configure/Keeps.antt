-- ===== src/Loraham/Backend/Configure/Keeps.antt =====
-- The configuration keeps the invariant.
use meshcom_loraham_bridge.Prelude.{
  ℕ, ◌≤◌, true, false, List, [], length, Bytes, ◌≡◌, ◌≢◌, inl, inr, ◌∙◌, arith, if_rule,
}
use meshcom_loraham_bridge.Radio.{RadioConfig}
use meshcom_loraham_bridge.Loraham.Framing.{parser_reset}
use meshcom_loraham_bridge.Loraham.Link.{
  begin_connect, poll_connect, conf_reads, Recv, TxFlush, complete, partial, flush_failed,
}
use meshcom_loraham_bridge.Loraham.Backend.{Backend, connecting, configuring, emit}
use meshcom_loraham_bridge.Loraham.Backend.Conf.{
  ConfResult, conf_idle, conf_status, conf_failed, pump_conf, set_conf, max_conf_line,
}
use meshcom_loraham_bridge.Loraham.Backend.Conf.Keeps.{ConfRun, conf_loop-ConfRun}
use meshcom_loraham_bridge.Loraham.Backend.Configure.{
  begin_configure, config_succeed, config_fail, write_commands, read_status, after_status,
  mark_written, after_write, advance_configure, advance_connect,
}
use meshcom_loraham_bridge.Loraham.Backend.Invariant.{Inv, emit-Inv, reset-Inv}

pub begin_configure-Inv :
    (now : ℕ) (cfg : RadioConfig) (b : Backend) → Inv b → Inv (begin_configure now cfg b).1
unfolding begin_configure begin_connect parser_reset
begin_configure-Inv now cfg b v = ground arith

pub config_fail-Inv : (b : Backend) → Inv (config_fail b)
unfolding config_fail
config_fail-Inv b = emit-Inv _ _ (reset-Inv b)

set_conf-Inv :
    (reads : List Recv) (line : Bytes) (b : Backend)
    → Inv b
    → length line ≤ max_conf_line
    → Inv (set_conf reads line b)
set_conf-Inv reads line b v h = ground arith

config_succeed-Inv : (b : Backend) → Inv b → b.tx_out ≡ [] → Inv (config_succeed b)
unfolding config_succeed emit
config_succeed-Inv b v e = ground arith

-- The invariant behind a read of the CONF socket that did not fail.
pub ConfRun-Inv :
    (b : Backend) (r : ConfResult) (c : Backend)
    → Inv b
    → ConfRun b (r, c)
    → r ≢ conf_failed
    → Inv c × (c.state ≡ b.state) × (c.tx_out ≡ b.tx_out)
ConfRun-Inv b r c v (reads, line, e, inl failed) ne = absurd (ne failed)
ConfRun-Inv b r c v (reads, line, e, inr h) ne = ground (arith, set_conf-Inv reads line b v h)

abbrev IdleTx : Backend → Type 0
IdleTx b = Inv b × (b.tx_out ≡ [])

after_status-Inv :
    (b : Backend) (r : ConfResult × Backend) → IdleTx b → ConfRun b r → Inv (after_status r)
unfolding after_status
after_status-Inv b (conf_failed, c) (v, s) run = config_fail-Inv c
after_status-Inv b (conf_idle, c) (v, s) run = (ConfRun-Inv b conf_idle c v run (λ h. cc)).0
after_status-Inv b (conf_status true, c) (v, s) run =
    let (w, _, t) = ConfRun-Inv b (conf_status true) c v run (λ h. cc) in
    config_succeed-Inv c w (t ∙ s)
after_status-Inv b (conf_status false, c) (v, s) run = config_fail-Inv c

read_status-Inv : (b : Backend) → IdleTx b → Inv (read_status b)
unfolding read_status pump_conf
read_status-Inv b v =
    let run = conf_loop-ConfRun true (conf_reads b.link) b v.0.line_bounded in
    if_rule Inv b.awaiting_status _ b (after_status-Inv b _ v run) v.0

mark_written-IdleTx : (b : Backend) → IdleTx b → IdleTx (mark_written b)
unfolding mark_written
mark_written-IdleTx b v = ground arith

after_write-Inv : (flush : TxFlush) (b : Backend) → IdleTx b → Inv (after_write flush b)
unfolding after_write
after_write-Inv flush_failed b v = config_fail-Inv b
after_write-Inv complete b v = read_status-Inv (mark_written b) (mark_written-IdleTx b v)
after_write-Inv partial b v = read_status-Inv (mark_written b) (mark_written-IdleTx b v)

write_commands-IdleTx : (b : Backend) → IdleTx b → IdleTx (write_commands b).1
unfolding write_commands
write_commands-IdleTx b v = ground arith

pub advance_configure-Inv :
    (b : Backend) → Inv b → b.state ≡ configuring → Inv (advance_configure b)
unfolding advance_configure
advance_configure-Inv b v s =
    after_write-Inv _ (write_commands b).1 (write_commands-IdleTx b (v, ground arith))

pub advance_connect-Inv : (b : Backend) → Inv b → b.state ≡ connecting → Inv (advance_connect b)
unfolding advance_connect poll_connect
advance_connect-Inv b v s =
    let (c, l) = poll_connect b.link in
    let next : Backend = record b { link = l; state = configuring } in
    ground (arith, config_fail-Inv (record b { link = l }), advance_configure-Inv next)

-- ===== src/Loraham/Backend/Poll/Keeps.antt =====
-- A poll keeps the invariant.
use meshcom_loraham_bridge.Prelude.{
  ℕ, Bool, true, false, [], ◌≡◌, ◌≢◌, ◌⊎◌, inl, inr, refl, sym, ◌∙◌, subst, arith, Bool-cases, leb,
  if◌then◌else◌,
}
use meshcom_loraham_bridge.Loraham.Link.{
  TxFlush, complete, partial, flush_failed, conf_reads, data_reads,
}
use meshcom_loraham_bridge.Loraham.Backend.{Backend, State, tx_writing, tx_pending}
use meshcom_loraham_bridge.Loraham.Backend.Conf.{
  ConfResult, conf_idle, conf_status, conf_failed, pump_conf, drain_conf_input,
}
use meshcom_loraham_bridge.Loraham.Backend.Conf.Keeps.{ConfRun, conf_loop-ConfRun}
use meshcom_loraham_bridge.Loraham.Backend.Configure.Keeps.{
  config_fail-Inv, advance_configure-Inv, advance_connect-Inv, ConfRun-Inv,
}
use meshcom_loraham_bridge.Loraham.Backend.Transmit.{pump_tx_write}
use meshcom_loraham_bridge.Loraham.Backend.Transmit.Write.{
  pump_tx_write_owner, pump_tx_write_same, SameButWrites,
}
use meshcom_loraham_bridge.Loraham.Backend.Receive.Keeps.{data_loop-Inv}
use meshcom_loraham_bridge.Loraham.Backend.Receive.{stops_operational, stops_drain}
use meshcom_loraham_bridge.Loraham.Backend.Poll.{
  read_data, after_resume, resume_write, after_conf, advance_operational, advance_drain, poll_step,
  poll, is_writing,
}
use meshcom_loraham_bridge.Loraham.Backend.Invariant.{
  Inv, Owner, BridgeOwns, DaemonOwns, emit-Inv, reset-Inv, enter_fault-Inv, handle_disconnect-Inv,
}

read_data-Inv : (stops : Backend → Bool) (b : Backend) → Inv b → Inv (read_data stops b)
unfolding read_data
read_data-Inv stops b v = data_loop-Inv stops (data_reads b.link) b v

-- The frame is whole, or it is not and the write may go on.
abbrev Written : Backend → TxFlush × Backend → Type 0
Written b (flush, c) =
    (((flush ≡ complete) × DaemonOwns c) ⊎ ((flush ≢ complete) × BridgeOwns c)) × SameButWrites b c

after_resume-Inv :
    (b : Backend) (r : TxFlush × Backend)
    → Inv b
    → b.state ≡ tx_writing
    → Written b r
    → Inv (after_resume r)
unfolding after_resume
after_resume-Inv b (flush_failed, c) v s w = emit-Inv _ _ (reset-Inv c)
after_resume-Inv b (complete, c) v s (inl (_, owns), same) =
    read_data-Inv _ (record c { state = tx_pending })
      (record {
        parser_bounded = rw same.5 v.parser_bounded;
        line_bounded = rw same.6 v.line_bounded;
        owner = owns;
      })
after_resume-Inv b (complete, c) v s (inr (ne, _), same) = absurd (ne refl)
after_resume-Inv b (partial, c) v s (inl (e, _), same) = cc
after_resume-Inv b (partial, c) v s (inr (_, owns), same) = read_data-Inv _ c (record {
  parser_bounded = rw same.5 v.parser_bounded;
  line_bounded = rw same.6 v.line_bounded;
  owner = subst (λ (x : State). Owner x c) (sym (same.1 ∙ s)) owns;
})

resume_write-Inv : (b : Backend) → Inv b → b.state ≡ tx_writing → Inv (resume_write b)
unfolding resume_write
resume_write-Inv b v s =
    after_resume-Inv b (pump_tx_write b) v s
      (pump_tx_write_owner b (subst (λ (x : State). Owner x b) s v.owner), pump_tx_write_same b)

pub is_writing_lem : (s : State) → is_writing s ≡ true → s ≡ tx_writing
unfolding is_writing
is_writing_lem s e = ground arith

go_on-Inv :
    (b : Backend)
    → Inv b
    → Inv (if is_writing b.state then resume_write b else read_data stops_operational b)
go_on-Inv b v = elim (Bool-cases (is_writing b.state)) [
  | inl e ↦ rw e (resume_write-Inv b v (is_writing_lem b.state e))
  | inr e ↦ rw e (read_data-Inv stops_operational b v)
]

after_conf-Inv :
    (b : Backend) (r : ConfResult) (c : Backend)
    → Inv b
    → ConfRun b (r, c)
    → Inv (after_conf (r, c))
unfolding after_conf
after_conf-Inv b conf_failed c v run = handle_disconnect-Inv c
after_conf-Inv b conf_idle c v run = go_on-Inv c (ConfRun-Inv b conf_idle c v run (λ h. cc)).0
after_conf-Inv b (conf_status r) c v run =
    go_on-Inv c (ConfRun-Inv b (conf_status r) c v run (λ h. cc)).0

pub advance_operational-Inv : (b : Backend) → Inv b → Inv (advance_operational b)
unfolding advance_operational pump_conf
advance_operational-Inv b v =
    after_conf-Inv b _ _ v (conf_loop-ConfRun false (conf_reads b.link) b v.line_bounded)

drain_conf_input-Inv : (b : Backend) → Inv b → Inv (drain_conf_input b)
unfolding drain_conf_input
drain_conf_input-Inv b v = ground arith

pub advance_drain-Inv : (now : ℕ) (b : Backend) → Inv b → Inv (advance_drain now b)
unfolding advance_drain
advance_drain-Inv now b v = elim (Bool-cases (leb b.drain_deadline_at now)) [
  | inl e ↦ rw e (enter_fault-Inv b)
  | inr e ↦ rw e (read_data-Inv stops_drain _ (drain_conf_input-Inv b v))
]

poll_step-Inv : (now : ℕ) (b : Backend) → Inv b → Inv (poll_step now b)
unfolding poll_step
poll_step-Inv now b v = ground (
  arith,
  config_fail-Inv b,
  advance_connect-Inv b,
  advance_configure-Inv b,
  advance_operational-Inv b,
  advance_drain-Inv now b,
)

pub clear-Inv : (b : Backend) → Inv b → Inv (record b { events = [] })
clear-Inv b v = ground arith

-- A poll keeps the invariant: the parser and the CONF line stay within their bounds, and what the
-- backend holds of a frame and of the link fits its state.
pub poll-Inv : (now : ℕ) (b : Backend) → Inv b → Inv (poll now b).0
unfolding poll
poll-Inv now b v = clear-Inv _ (poll_step-Inv now _ (clear-Inv b v))

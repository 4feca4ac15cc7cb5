-- ===== src/Loraham/Backend/Steps/Count.antt =====
-- How many results a backend reports, against the transmissions that it has accepted.
use meshcom_loraham_bridge.Prelude.{
  ℕ, ◌+◌, ◌≤◌, true, false, List, [], ◌∷◌, ◌≡◌, inl, inr, arith, Bytes, Option-cases,
}
use meshcom_loraham_bridge.Radio.{RadioConfig}
use meshcom_loraham_bridge.Loraham.Framing.{encode_tx_packet, framed_header_len, max_rf_payload}
use meshcom_loraham_bridge.Loraham.Backend.{Backend, stop, set_sink, start, reset_link_unconfigured}
use meshcom_loraham_bridge.Loraham.Backend.Invariant.{Inv}
use meshcom_loraham_bridge.Loraham.Backend.Configure.{begin_configure}
use meshcom_loraham_bridge.Loraham.Backend.Transmit.{
  submit_tx, submit_frame, abandon_pending_tx, pump_tx_write,
}
use meshcom_loraham_bridge.Loraham.Backend.Poll.Credit.{poll-completes}
use meshcom_loraham_bridge.Loraham.Backend.Credit.{completes, awaited}
use meshcom_loraham_bridge.Loraham.Backend.Steps.{
  Call, set_sink_call, begin_configure_call, start_call, stop_call, submit_tx_call,
  abandon_pending_tx_call, poll_call, environment, Reply, nothing, token, accepted, sink_calls,
  step, run, new_backend, step-Inv, new_backend-Inv, answer,
}

-- The transmissions that submit_tx has accepted, and the results reported.
abbrev pub submits : List Reply → ℕ
submits [] = 0
submits (nothing ∷ rs) = submits rs
submits (token t ∷ rs) = submits rs
submits (accepted true ∷ rs) = 1 + submits rs
submits (accepted false ∷ rs) = submits rs
submits (sink_calls es ∷ rs) = submits rs

abbrev pub results : List Reply → ℕ
results [] = 0
results (nothing ∷ rs) = results rs
results (token t ∷ rs) = results rs
results (accepted a ∷ rs) = results rs
results (sink_calls es ∷ rs) = completes es + results rs

begin_configure-awaited :
    (now : ℕ) (cfg : RadioConfig) (b : Backend)
    → awaited (begin_configure now cfg b).1.state ≤ awaited b.state
unfolding begin_configure
begin_configure-awaited now cfg b = ground arith

abandon-awaited :
    (now : ℕ) (b : Backend) → awaited (abandon_pending_tx now b).state ≤ awaited b.state
unfolding abandon_pending_tx reset_link_unconfigured
abandon-awaited now b = ground arith

stop-awaited : (b : Backend) → awaited (stop b).state ≤ awaited b.state
unfolding stop reset_link_unconfigured
stop-awaited b = ground arith

submit_frame-awaited :
    (frame : Bytes) (b : Backend)
    → awaited (submit_frame frame b).1.state ≤ submits (accepted (submit_frame frame b).0 ∷ [])
unfolding submit_frame pump_tx_write reset_link_unconfigured
submit_frame-awaited frame b = ground arith

submit_tx-awaited :
    (rf : Bytes) (b : Backend)
    → awaited (submit_tx rf b).1.state
      ≤ submits (accepted (submit_tx rf b).0 ∷ []) + awaited b.state
unfolding submit_tx
submit_tx-awaited rf b =
    elim (Option-cases (encode_tx_packet (framed_header_len + max_rf_payload) rf)) [
      | inl e ↦ ground arith
      | inr (frame, e) ↦ ground (arith, submit_frame-awaited frame b)
    ]

step-credit :
    (c : Call) (b : Backend)
    → Inv b
    → results ((step c b).0 ∷ []) + awaited (step c b).1.state
      ≤ submits ((step c b).0 ∷ []) + awaited b.state
unfolding step set_sink start answer
step-credit (set_sink_call s) b v = omega arith
step-credit (begin_configure_call now cfg) b v = omega (arith, begin_configure-awaited now cfg b)
step-credit start_call b v = omega arith
step-credit stop_call b v = omega (arith, stop-awaited b)
step-credit (submit_tx_call rf) b v = omega (arith, submit_tx-awaited rf b)
step-credit (abandon_pending_tx_call now) b v = omega (arith, abandon-awaited now b)
step-credit (poll_call now) b v = omega (arith, poll-completes now b v)
step-credit (environment a) b v = omega arith

results-cons : (r : Reply) (rs : List Reply) → results (r ∷ rs) ≡ results (r ∷ []) + results rs
results-cons nothing rs = omega arith
results-cons (token t) rs = omega arith
results-cons (accepted a) rs = omega arith
results-cons (sink_calls es) rs = omega arith

submits-cons : (r : Reply) (rs : List Reply) → submits (r ∷ rs) ≡ submits (r ∷ []) + submits rs
submits-cons nothing rs = omega arith
submits-cons (token t) rs = omega arith
submits-cons (accepted true) rs = omega arith
submits-cons (accepted false) rs = omega arith
submits-cons (sink_calls es) rs = omega arith

run-credit :
    (cs : List Call) (b : Backend)
    → Inv b
    → results (run cs b).0 + awaited (run cs b).1.state ≤ submits (run cs b).0 + awaited b.state
unfolding run
run-credit [] b v = omega arith
run-credit (c ∷ cs) b v =
    let (r, next) = step c b in
    omega (
      arith,
      step-credit c b v,
      run-credit cs next (step-Inv c b v),
      results-cons r (run cs next).0,
      submits-cons r (run cs next).0,
    )

-- Whatever calls have been made since the constructor, the tx_complete calls of the sink and the
-- transmission that is still being written or pending are together no more than the transmissions
-- that submit_tx has accepted.
pub run-results :
    (config_timeout drain_timeout : ℕ) (cs : List Call)
    → let (replies, b) = run cs (new_backend config_timeout drain_timeout) in
      results replies + awaited b.state ≤ submits replies
run-results c d cs = omega (arith, run-credit cs (new_backend c d) (new_backend-Inv c d))

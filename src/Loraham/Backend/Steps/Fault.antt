-- ===== src/Loraham/Backend/Steps/Fault.antt =====
-- A faulted backend over time.
use meshcom_loraham_bridge.Prelude.{false, List, [], ◌∷◌, ◌≡◌, arith, All}
use meshcom_loraham_bridge.Loraham.Backend.{Backend, faulted, stop, set_sink, start, is_ready}
use meshcom_loraham_bridge.Loraham.Backend.Configure.{begin_configure}
use meshcom_loraham_bridge.Loraham.Backend.Transmit.{submit_tx, abandon_pending_tx}
use meshcom_loraham_bridge.Loraham.Backend.Poll.{poll, poll_step}
use meshcom_loraham_bridge.Loraham.Backend.Steps.{
  Call, set_sink_call, begin_configure_call, start_call, stop_call, submit_tx_call,
  abandon_pending_tx_call, poll_call, environment, Reply, nothing, token, accepted, sink_calls,
  step, run, answer,
}

-- The configuration is refused, the packet is refused, or the sink is not called.
abbrev pub IsRefusal : Reply → Type 0
IsRefusal nothing = Unit
IsRefusal (token t) = t ≡ 0
IsRefusal (accepted a) = a ≡ false
IsRefusal (sink_calls es) = es ≡ []

step_faulted :
    (c : Call) (b : Backend)
    → b.state ≡ faulted
    → IsRefusal (step c b).0 × ((step c b).1.state ≡ faulted)
unfolding step set_sink start stop answer begin_configure submit_tx is_ready abandon_pending_tx poll
    poll_step
step_faulted (set_sink_call s) b e = (tt, e)
step_faulted (begin_configure_call now cfg) b e = ground arith
step_faulted start_call b e = (tt, e)
step_faulted stop_call b e = ground arith
step_faulted (submit_tx_call rf) b e = ground arith
step_faulted (abandon_pending_tx_call now) b e = ground arith
step_faulted (poll_call now) b e = ground arith
step_faulted (environment a) b e = (tt, e)

-- A faulted backend stays faulted under every sequence of calls, whatever the daemon does: each
-- begin_configure returns the token 0, each submit_tx is refused and no poll calls the sink.
pub run_faulted :
    (cs : List Call) (b : Backend)
    → b.state ≡ faulted
    → All IsRefusal (run cs b).0 × ((run cs b).1.state ≡ faulted)
unfolding run
run_faulted [] b e = (tt, e)
run_faulted (c ∷ cs) b e =
    let (refused, stays) = step_faulted c b e in
    let (later, last) = run_faulted cs (step c b).1 stays in ((refused, later), last)

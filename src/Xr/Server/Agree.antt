-- ===== src/Xr/Server/Agree.antt =====
-- LorahamBackend by the laws that a session relies on.
use meshcom_loraham_bridge.Prelude.{ℕ, true, false, Bytes, ◌==◌, ◌≡◌, arith}
use meshcom_loraham_bridge.Radio.{RadioConfig}
use meshcom_loraham_bridge.Loraham.Link.{begin_connect}
use meshcom_loraham_bridge.Loraham.Framing.{parser_reset}
use meshcom_loraham_bridge.Loraham.Backend.{
  Backend, set_sink, start, stop, is_ready, reset_link_unconfigured,
}
use meshcom_loraham_bridge.Loraham.Backend.Configure.{begin_configure}
use meshcom_loraham_bridge.Loraham.Backend.Transmit.{
  submit_tx, submit_frame, pump_tx_write, abandon_pending_tx,
}
use meshcom_loraham_bridge.Loraham.Backend.Poll.{loraham_backend}
use meshcom_loraham_bridge.Loraham.Backend.Poll.Sink.{Reports, loraham-BackendLaws}
use meshcom_loraham_bridge.Loraham.Backend.Poll.View.{poll-In, idle_stays}
use meshcom_loraham_bridge.Loraham.Backend.View.{View, idle, awaiting, busy, In}
use meshcom_loraham_bridge.Xr.Session.Agree.{ViewLaws}

begin_configure-In :
    (now : ℕ) (cfg : RadioConfig) (b : Backend)
    → ((begin_configure now cfg b).0 == 0) ≡ false
    → In (awaiting (begin_configure now cfg b).0) (begin_configure now cfg b).1
unfolding begin_configure begin_connect parser_reset
begin_configure-In now cfg b e = ground arith

submit_tx-In : (rf : Bytes) (b : Backend) → (submit_tx rf b).0 ≡ true → In busy (submit_tx rf b).1
unfolding submit_tx submit_frame is_ready pump_tx_write
submit_tx-In rf b e = ground arith

opened-In : (b : Backend) → In idle b → In idle (start (set_sink true b))
unfolding start set_sink
opened-In b h = h

stop-In : (b : Backend) → In idle (stop b)
unfolding stop reset_link_unconfigured
stop-In b = ground arith

-- Beside a session with that view, and without a session.
abbrev pub Beside : View → Backend → Type 0
Beside v b = Reports true b × In v b

abbrev pub Alone : Backend → Type 0
Alone b = Reports false b × In idle b

pub loraham-ViewLaws : ViewLaws loraham_backend Beside Alone
loraham-ViewLaws =
    let keeps = loraham-BackendLaws in
    record {
      ends = λ v b h. (h.0, tt);
      configures = λ now cfg b h.
          let r = keeps.begin_configure_keeps true now cfg b h.0 in
          ((λ e. (r, begin_configure-In now cfg b e)), (r, tt));
      submits = λ rf b h.
          let r = keeps.submit_tx_keeps true rf b h.0 in ((λ e. (r, submit_tx-In rf b e)), (r, tt));
      abandons = λ now b h. (keeps.abandon_pending_tx_keeps true now b h.0, tt);
      polls = λ now v b h. (keeps.poll_keeps true now b h.0, poll-In now b h.0.inv h.0.sink v h.1);
      opens = λ b h. (
        keeps.start_keeps true (set_sink true b) (keeps.set_sink_keeps false true b h.0),
        opened-In b h.1,
      );
      closes = λ now v b h.
          let a = abandon_pending_tx now b in
          let r =
            keeps.set_sink_keeps true false a (keeps.abandon_pending_tx_keeps true now b h.0) in
          (keeps.stop_keeps false (set_sink false a) r, stop-In (set_sink false a));
      rests = λ now b h. (keeps.poll_keeps false now b h.0, (idle_stays now b h.0.inv h.1).1);
    }

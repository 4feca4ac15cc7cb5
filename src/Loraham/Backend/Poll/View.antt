-- ===== src/Loraham/Backend/Poll/View.antt =====
-- What a poll reports keeps a session's view of its backend right.
use meshcom_loraham_bridge.Prelude.{
  ℕ, Bool, true, false, List, [], ◌∷◌, ◌≡◌, ◌⊎◌, refl, inl, inr, sym, subst, ◌∙◌, arith,
  if◌then◌else◌, Bool-cases,
}
use meshcom_loraham_bridge.Radio.{
  RadioConfig, SinkEvent, rx, tx_complete, backend_failure, configure_complete,
}
use meshcom_loraham_bridge.Loraham.Link.{
  TxFlush, complete, partial, flush_failed, conf_reads, data_reads,
}
use meshcom_loraham_bridge.Loraham.Backend.{
  Backend, State, disconnected, connecting, configuring, ready, tx_writing, tx_pending, faulted,
}
use meshcom_loraham_bridge.Loraham.Backend.Conf.{
  ConfResult, conf_idle, conf_status, conf_failed, pump_conf,
}
use meshcom_loraham_bridge.Loraham.Backend.Conf.Keeps.{ConfRun, conf_loop-ConfRun}
use meshcom_loraham_bridge.Loraham.Backend.Configure.Outcome.{Outcome}
use meshcom_loraham_bridge.Loraham.Backend.Configure.View.{
  config_fail_token, advance_configure_token, advance_connect_token,
}
use meshcom_loraham_bridge.Loraham.Backend.Transmit.{pump_tx_write}
use meshcom_loraham_bridge.Loraham.Backend.Receive.{stops_operational}
use meshcom_loraham_bridge.Loraham.Backend.Receive.View.{data_loop-Tracks}
use meshcom_loraham_bridge.Loraham.Backend.Invariant.{Inv, Owner}
use meshcom_loraham_bridge.Loraham.Backend.View.{
  View, idle, awaiting, free, busy, gone, see_all, In, InUse, Current, Tracks, same-Tracks,
  lost-Tracks, handle_disconnect-Tracks,
}
use meshcom_loraham_bridge.Loraham.Backend.Poll.{
  read_data, after_resume, resume_write, after_conf, advance_operational, poll_step, poll,
  is_writing,
}
use meshcom_loraham_bridge.Loraham.Backend.Poll.Keeps.{is_writing_lem, clear-Inv}
use meshcom_loraham_bridge.Loraham.Backend.Poll.Outcome.{poll_configuring}
use meshcom_loraham_bridge.Loraham.Backend.Poll.Quiet.{poll_draining}

use_In : (v : View) (b : Backend) → InUse v b.state → In v b
use_In free b s = s
use_In busy b s = s
use_In gone b s = tt
use_In idle b s = absurd s
use_In (awaiting t) b s = absurd s

module _ (v : View) where
  read_data-Tracks :
      (stops : Backend → Bool) (b : Backend) → Tracks v b → Tracks v (read_data stops b)
  unfolding read_data
  read_data-Tracks stops b t = data_loop-Tracks v stops (data_reads b.link) b t

  -- The frame is whole now.
  whole-Tracks :
      (b : Backend) → Tracks v b → b.state ≡ tx_writing → Tracks v (record b { state = tx_pending })
  whole-Tracks b t s = record {
    heard = t.heard;
    fits = t.fits;
    current = λ _. t.current (inl s);
    view = t.view;
    seen = t.seen;
    follows = ground (arith, t.follows, s);
  }

  after_resume-Tracks :
      (f : TxFlush) (b : Backend)
      → Tracks v b
      → b.state ≡ tx_writing
      → Tracks v (after_resume (f, b))
  unfolding after_resume
  after_resume-Tracks flush_failed b t s = lost-Tracks v b t.heard
  after_resume-Tracks complete b t s =
      read_data-Tracks stops_operational (record b { state = tx_pending }) (whole-Tracks b t s)
  after_resume-Tracks partial b t s = read_data-Tracks stops_operational b t

  resume_write-Tracks :
      (b : Backend) → Tracks v b → b.state ≡ tx_writing → Tracks v (resume_write b)
  unfolding resume_write pump_tx_write
  resume_write-Tracks b t s =
      let c = (pump_tx_write b).1 in
      after_resume-Tracks (pump_tx_write b).0 c
        (same-Tracks v b c t refl refl refl t.fits t.current) s

  go_on-Tracks :
      (b : Backend)
      → Tracks v b
      → Tracks v (if is_writing b.state then resume_write b else read_data stops_operational b)
  go_on-Tracks b t = elim (Bool-cases (is_writing b.state)) [
    | inl e ↦ rw e (resume_write-Tracks b t (is_writing_lem b.state e))
    | inr e ↦ rw e (read_data-Tracks stops_operational b t)
  ]

  ConfRun-Tracks :
      (b : Backend) (r : ConfResult) (c : Backend) → Tracks v b → ConfRun b (r, c) → Tracks v c
  ConfRun-Tracks b r c t (reads, line, e, _) =
      rw e (same-Tracks v b _ t refl refl refl t.fits t.current)

  after_conf-Tracks : (r : ConfResult) (b : Backend) → Tracks v b → Tracks v (after_conf (r, b))
  unfolding after_conf
  after_conf-Tracks conf_failed b t = handle_disconnect-Tracks v b t
  after_conf-Tracks conf_idle b t = go_on-Tracks b t
  after_conf-Tracks (conf_status r) b t = go_on-Tracks b t

  advance_operational-Tracks : (b : Backend) → Tracks v b → Inv b → Tracks v (advance_operational b)
  unfolding advance_operational pump_conf
  advance_operational-Tracks b t i =
      after_conf-Tracks (pump_conf false b).0 (pump_conf false b).1
        (ConfRun-Tracks b _ _ t (conf_loop-ConfRun false (conf_reads b.link) b i.line_bounded))

  -- What is in use behind the operation is so for the session.
  Tracks-In : (b : Backend) → Tracks v b → In (see_all b.events v) b
  Tracks-In b t = subst (λ (w : View). In w b) (sym t.seen) (use_In t.view b t.follows)

see_gone : (es : List SinkEvent) → see_all es gone ≡ gone
unfolding see_all
see_gone [] = refl
see_gone (rx r ∷ es) = see_gone es
see_gone (tx_complete o ∷ es) = see_gone es
see_gone (backend_failure ∷ es) = see_gone es
see_gone (configure_complete t r ∷ es) = see_gone es

-- The view behind the completion of a configuration.
Outcome-seen :
    (t : ℕ) (cfg : RadioConfig) (b : Backend) (es : List SinkEvent)
    → Outcome t cfg b.state es
    → b.config_token ≡ t
    → In (see_all es (awaiting t)) b
unfolding see_all
Outcome-seen t cfg b es (inl (s, e)) k = rw e (s, k)
Outcome-seen t cfg b es (inr (inl (s, e))) k = rw e (ground (arith, s))
Outcome-seen t cfg b es (inr (inr (s, e))) k = rw e (ground arith)

poll_token :
    (now : ℕ) (b : Backend)
    → Inv b
    → ((b.state ≡ connecting) ⊎ (b.state ≡ configuring))
    → (poll now b).0.config_token ≡ b.config_token
unfolding poll poll_step
poll_token now b i s =
    let fresh : Backend = record b { events = [] } in
    ground (
      arith,
      config_fail_token b.config_token fresh refl,
      advance_configure_token b.config_token fresh (refl, i.line_bounded),
      advance_connect_token b.config_token fresh (refl, i.line_bounded),
    )

clear-In : (v : View) (b : Backend) → In v b → In v (record b { events = [] })
clear-In idle b h = h
clear-In (awaiting t) b h = h
clear-In free b h = h
clear-In busy b h = h
clear-In gone b h = tt

operational :
    (now : ℕ) (b : Backend)
    → (b.state ≡ ready) ⊎ ((b.state ≡ tx_writing) ⊎ (b.state ≡ tx_pending))
    → poll_step now b ≡ advance_operational b
unfolding poll_step
operational now b s = ground arith

module _ (now : ℕ) (b : Backend) (i : Inv b) where
  resting :
      (b.state ≡ disconnected) ⊎ (b.state ≡ faulted) → poll now b ≡ (record b { events = [] }, [])
  unfolding poll poll_step
  resting (inl s) = ground arith
  resting (inr s) = ground arith

  -- A backend of which nothing is asked stays so and makes no call of the sink, if it has one.
  pub idle_stays : In idle b → ((poll now b).1 ≡ []) × In idle (poll now b).0
  idle_stays (inl s) = rw (resting (inl s)) (refl, inl s)
  idle_stays (inr (inl s)) =
      let (silent, where_to, _) = poll_draining now b i s in (silent, ground (arith, where_to))
  idle_stays (inr (inr s)) = rw (resting (inr s)) (refl, inr (inr s))

  current : Current b
  current (inl s) = (subst (λ (x : State). Owner x b) s i.owner).4
  current (inr s) = (subst (λ (x : State). Owner x b) s i.owner).4

module _ (now : ℕ) (b : Backend) (i : Inv b) (heard : b.sink ≡ true) where
  awaiting-In :
      (t : ℕ)
      → ((b.state ≡ connecting) ⊎ (b.state ≡ configuring)) × (b.config_token ≡ t)
      → In (see_all (poll now b).1 (awaiting t)) (poll now b).0
  awaiting-In t (s, k) =
      let outcome = (poll_configuring now b i s heard).0 in
      Outcome-seen t b.pending_cfg (poll now b).0 (poll now b).1
        (subst (λ (n : ℕ). Outcome n b.pending_cfg (poll now b).0.state (poll now b).1) k outcome)
        (poll_token now b i s ∙ k)

  idle-In : In idle b → In (see_all (poll now b).1 idle) (poll now b).0
  unfolding see_all
  idle-In h = let (silent, stays) = idle_stays now b i h in rw silent stays

  fresh-Tracks : (v : View) → InUse v b.state → Tracks v (record b { events = [] })
  unfolding see_all
  fresh-Tracks v u = record {
    heard = heard;
    fits = i.parser_bounded;
    current = current now b i;
    view = v;
    seen = refl;
    follows = u;
  }

  InUse-In :
      (v : View)
      → InUse v b.state
      → (b.state ≡ ready) ⊎ ((b.state ≡ tx_writing) ⊎ (b.state ≡ tx_pending))
      → In (see_all (poll now b).1 v) (poll now b).0
  unfolding poll
  InUse-In v u s =
      let fresh : Backend = record b { events = [] } in
      let t = advance_operational-Tracks v fresh (fresh-Tracks v u) (clear-Inv b i) in
      let after : poll_step now fresh ≡ advance_operational fresh = operational now fresh s in
      rw after (clear-In _ _ (Tracks-In v (advance_operational fresh) t))

  -- A poll whose calls go to a session leaves the backend as the session's view then says.
  pub poll-In : (v : View) → In v b → In (see_all (poll now b).1 v) (poll now b).0
  poll-In idle h = idle-In h
  poll-In (awaiting t) h = awaiting-In t h
  poll-In free h = InUse-In free h (inl h)
  poll-In busy h = InUse-In busy h (inr h)
  poll-In gone h = subst (λ (w : View). In w (poll now b).0) (sym (see_gone (poll now b).1)) tt

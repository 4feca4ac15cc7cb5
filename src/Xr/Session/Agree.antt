-- ===== src/Xr/Session/Agree.antt =====
-- A session and its backend agree: the backend is in a state that fits what the session knows of it,
-- which is nothing once the session is closed.
use meshcom_loraham_bridge.Prelude.{
  ℕ, true, false, not, ◌==◌, ◌≡◌, inl, inr, refl, sym, subst, arith, Bytes, Option-cases, if_rule,
  if_split,
}
use meshcom_loraham_bridge.Radio.{RadioBackend, RadioConfig}
use meshcom_loraham_bridge.Loraham.Backend.View.{View, idle, awaiting, free, busy, gone, see_all}
use meshcom_loraham_bridge.Xr.Codec.{
  External, XrFrame, msg_configure, msg_pong, msg_tx_request, msg_error, cfg_unsupported,
  cfg_invalid,
}
use meshcom_loraham_bridge.Xr.Session.{
  Session, Phase, wait_hello, wait_auth, wait_configure, configuring, ready, closed, open_session,
  arm, close, is_client_message, CloseReason, bad_state, malformed_frame, remote_error,
  backend_failure,
}
use meshcom_loraham_bridge.Xr.Session.Handle.{
  handle_hello, handle_auth, refuse_config, handle_pong, configure_backend, handle_configure,
  handle_tx_request, handle_ready_frame, handle_phase, handle_frame,
}
use meshcom_loraham_bridge.Xr.Session.Events.{on_events}
use meshcom_loraham_bridge.Xr.Session.Events.View.{on_events-Within, refuse_config-gone}
use meshcom_loraham_bridge.Xr.Session.Invariant.{SessionInv}
use meshcom_loraham_bridge.Xr.Session.Steps.{deliver}
use meshcom_loraham_bridge.Xr.Session.View.{view_of, seen, Within, close_gone}
use meshcom_loraham_bridge.Xr.Session.Handle.View.{
  handle_hello-Within, handle_auth-Within, handle_pong-Within,
}

-- What a session may rely on. `F v b` is a backend beside a session with the view `v`, and `P b` one
-- that reports to no session.
pub record ViewLaws (rb : RadioBackend) (F : View → rb.Backend → Type 0) (P : rb.Backend → Type 0)
    : Type 0 where
  pub ends : (v : View) (b : rb.Backend) → F v b → F gone b
  pub configures :
      (now : ℕ) (cfg : RadioConfig) (b : rb.Backend)
      → F idle b
      → let (t, b') = rb.begin_configure now cfg b in
        ((t == 0) ≡ false → F (awaiting t) b') × F gone b'
  pub submits :
      (rf : Bytes) (b : rb.Backend)
      → F free b
      → let (taken, b') = rb.submit_tx rf b in (taken ≡ true → F busy b') × F gone b'
  pub abandons : (now : ℕ) (b : rb.Backend) → F busy b → F gone (rb.abandon_pending_tx now b)
  pub polls :
      (now : ℕ) (v : View) (b : rb.Backend)
      → F v b
      → F (see_all (rb.poll now b).1 v) (rb.poll now b).0
  pub opens : (b : rb.Backend) → P b → F idle (rb.start (rb.set_sink true b))
  pub closes :
      (now : ℕ) (v : View) (b : rb.Backend)
      → F v b
      → P (rb.stop (rb.set_sink false (rb.abandon_pending_tx now b)))
  pub rests : (now : ℕ) (b : rb.Backend) → P b → P (rb.poll now b).0

module _ {ext : External} (rb : RadioBackend) (F : View → rb.Backend → Type 0)
    (P : rb.Backend → Type 0) (laws : ViewLaws rb F P) where
  abbrev pub Agree : Session ext × rb.Backend → Type 0
  Agree (s, b) = F (seen s) b

  -- A session that may have ended stays with its backend.
  pub near : (w : View) (s : Session ext) (b : rb.Backend) → Within w s → F w b → Agree (s, b)
  near w s b (inl e) h = subst (λ (x : View). F x b) (sym e) h
  near w s b (inr e) h = subst (λ (x : View). F x b) (sym e) (laws.ends w b h)

  pub ended : (s : Session ext) (b : rb.Backend) → seen s ≡ gone → F gone b → Agree (s, b)
  ended s b e h = subst (λ (x : View). F x b) (sym e) h

  configure_backend-Agree :
      (now : ℕ) (c : RadioConfig) (s : Session ext) (b : rb.Backend)
      → F idle b
      → Agree (configure_backend rb now c (s, b))
  unfolding configure_backend arm
  configure_backend-Agree now c s b h =
      let (asked, lost) = laws.configures now c b h in
      if_split Agree ((rb.begin_configure now c b).0 == 0) _ _
        (λ e. ended (refuse_config cfg_unsupported s) _ (refuse_config-gone cfg_unsupported s) lost)
        asked

  handle_configure-Agree :
      (now : ℕ) (f : XrFrame) (s : Session ext) (b : rb.Backend)
      → F idle b
      → Agree (handle_configure rb now f (s, b))
  unfolding handle_configure
  handle_configure-Agree now f s b h =
      let over = laws.ends idle b h in
      let refused = ended (refuse_config cfg_invalid s) b (refuse_config-gone cfg_invalid s) over in
      if_rule Agree (f.type == msg_configure) _ _
        (elim (Option-cases (ext.decode_config f)) [
          | inl e ↦ rw e refused
          | inr (c, e) ↦ rw e (
              if_rule Agree (ext.radio_config_valid c) _ _ (configure_backend-Agree now c s b h)
                refused)
        ])
        (ended (close bad_state s) b (close_gone bad_state s) over)

  handle_tx_request-Agree :
      (now : ℕ) (f : XrFrame) (s : Session ext) (b : rb.Backend)
      → s.phase ≡ ready
      → Agree (s, b)
      → Agree (handle_tx_request rb now f (s, b))
  unfolding handle_tx_request
  handle_tx_request-Agree now f s b p h =
      if_split Agree s.tx_in_flight _ _
        (λ _. ended (close bad_state s) b (close_gone bad_state s) (laws.ends (seen s) b h))
        (λ e.
          let asked : Session ext = record s { tx_seq = f.seq } in
          let view : seen s ≡ free = rw (p, e) refl in
          let (taken, lost) = laws.submits f.payload b (subst (λ (x : View). F x b) view h) in
          if_split Agree (rb.submit_tx f.payload b).0 _ _
            (λ e'.
              subst
                (λ (x : Phase). F (view_of x s.config_op_token true) (rb.submit_tx f.payload b).1)
                (sym p) (taken e'))
            (λ e'. ended (close backend_failure asked) _ (close_gone backend_failure asked) lost))

  handle_ready_frame-Agree :
      (now : ℕ) (f : XrFrame) (s : Session ext) (b : rb.Backend)
      → s.phase ≡ ready
      → Agree (s, b)
      → Agree (handle_ready_frame rb now f (s, b))
  unfolding handle_ready_frame
  handle_ready_frame-Agree now f s b p h =
      if_rule Agree (f.type == msg_pong) _ _
        (near (seen s) (handle_pong now s) b (handle_pong-Within now s) h)
        (if_rule Agree (f.type == msg_tx_request) _ _ (handle_tx_request-Agree now f s b p h)
          (ended (close bad_state s) b (close_gone bad_state s) (laws.ends (seen s) b h)))

  -- What handle_phase does in a phase.
  abbrev at_phase : ℕ → XrFrame → Session ext → rb.Backend → Phase → Session ext × rb.Backend
  at_phase now f s b wait_hello = (handle_hello now f s, b)
  at_phase now f s b wait_auth = (handle_auth now f s, b)
  at_phase now f s b wait_configure = handle_configure rb now f (s, b)
  at_phase now f s b configuring = (close bad_state s, b)
  at_phase now f s b ready = handle_ready_frame rb now f (s, b)
  at_phase now f s b closed = (s, b)

  handle_phase_at :
      (now : ℕ) (f : XrFrame) (s : Session ext) (b : rb.Backend)
      → handle_phase rb now f (s, b) ≡ at_phase now f s b s.phase
  unfolding handle_phase
  handle_phase_at now f s b = ground arith

  seen_phase :
      (s : Session ext) (b : rb.Backend) (p : Phase)
      → s.phase ≡ p
      → Agree (s, b)
      → F (view_of p s.config_op_token s.tx_in_flight) b
  seen_phase s b p e h = subst (λ (x : Phase). F (view_of x s.config_op_token s.tx_in_flight) b) e h

  at_phase-Agree :
      (p : Phase) (now : ℕ) (f : XrFrame) (s : Session ext) (b : rb.Backend)
      → s.phase ≡ p
      → Agree (s, b)
      → Agree (at_phase now f s b p)
  at_phase-Agree wait_hello now f s b e h =
      near idle (handle_hello now f s) b (handle_hello-Within now f s)
        (seen_phase s b wait_hello e h)
  at_phase-Agree wait_auth now f s b e h =
      near idle (handle_auth now f s) b (handle_auth-Within now f s) (seen_phase s b wait_auth e h)
  at_phase-Agree wait_configure now f s b e h =
      handle_configure-Agree now f s b (seen_phase s b wait_configure e h)
  at_phase-Agree configuring now f s b e h =
      ended (close bad_state s) b (close_gone bad_state s) (laws.ends (seen s) b h)
  at_phase-Agree ready now f s b e h = handle_ready_frame-Agree now f s b e h
  at_phase-Agree closed now f s b e h = h

  handle_phase-Agree :
      (now : ℕ) (f : XrFrame) (s : Session ext) (b : rb.Backend)
      → Agree (s, b)
      → Agree (handle_phase rb now f (s, b))
  handle_phase-Agree now f s b h =
      subst Agree (sym (handle_phase_at now f s b)) (at_phase-Agree s.phase now f s b refl h)

  pub handle_frame-Agree :
      (now : ℕ) (f : XrFrame) (s : Session ext) (b : rb.Backend)
      → Agree (s, b)
      → Agree (handle_frame rb now f (s, b))
  unfolding handle_frame
  handle_frame-Agree now f s b h =
      let over : (r : CloseReason) → Agree (close r s, b) =
        λ r. ended (close r s) b (close_gone r s) (laws.ends (seen s) b h) in
      if_rule Agree (not (ext.validate f == 0)) _ _ (over malformed_frame) (
        if_rule Agree (not (is_client_message f.type)) _ _ (over bad_state) (
          if_rule Agree (f.type == msg_error) _ _ (over remote_error)
            (handle_phase-Agree now f s b h)))

  -- A poll of the backend, whose calls the session gets.
  pub deliver-Agree :
      (now : ℕ) (s : Session ext) (b : rb.Backend)
      → SessionInv s
      → Agree (s, b)
      → Agree (deliver rb now (s, b))
  unfolding deliver
  deliver-Agree now s b v h =
      near (see_all (rb.poll now b).1 (seen s)) (on_events now (rb.poll now b).1 s) _
        (on_events-Within now (rb.poll now b).1 (seen s) s v (inl refl))
        (laws.polls now (seen s) b h)

  pub open_session-Agree :
      (now : ℕ) (s : Session ext) (b : rb.Backend)
      → P b
      → Agree (open_session rb now (s, rb.set_sink true b))
  unfolding open_session arm
  open_session-Agree now s b p = laws.opens b p

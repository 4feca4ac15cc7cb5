-- ===== src/Xr/Session/Events/View.antt =====
-- The calls of its sink change a session's view of its backend as they should.
use meshcom_loraham_bridge.Prelude.{
  ℕ, Bool, true, false, not, ◌||◌, List, [], ◌∷◌, ◌==◌, ◌≡◌, inl, inr, refl, ap, sym, subst, ◌∙◌,
  arith, if_rule, if_split,
}
use meshcom_loraham_bridge.Radio.{
  SinkEvent, rx, tx_complete, backend_failure, configure_complete, RxEvent, TxOutcome,
  ConfigureResult,
}
use meshcom_loraham_bridge.Loraham.Backend.View.{
  View, awaiting, free, gone, see, see_all, configured, freed,
}
use meshcom_loraham_bridge.Xr.Codec.{External, cfg_unsupported}
use meshcom_loraham_bridge.Xr.Session.{Session, Phase, ready, enter_ready, disarm}
use meshcom_loraham_bridge.Xr.Session.Handle.{refuse_config}
use meshcom_loraham_bridge.Xr.Session.Events.{
  confirm_config, on_configure_complete, is_configuring, is_ready, on_rx, map_and_send_tx_result,
  on_tx_complete, on_backend_failure, on_event, on_events,
}
use meshcom_loraham_bridge.Xr.Session.Events.Keeps.{on_event-Inv, is_configuring_lem}
use meshcom_loraham_bridge.Xr.Session.Invariant.{SessionInv}
use meshcom_loraham_bridge.Xr.Session.View.{
  view_of, seen, Within, close_gone, emit-Emits, emit-Within, then_emitted-Within,
}

not_busy : (p : Phase) (t : ℕ) → freed (view_of p t false) ≡ view_of p t false
not_busy p t = ground arith

not_awaiting :
    (t : ℕ) (applied : Bool) (p : Phase) (t' : ℕ) (f : Bool)
    → is_configuring p ≡ false
    → configured t applied (view_of p t' f) ≡ view_of p t' f
unfolding is_configuring
not_awaiting t applied p t' f e = ground (arith, e)

not_this :
    (t t' : ℕ) (applied : Bool)
    → (t == t') ≡ false
    → configured t applied (awaiting t') ≡ awaiting t'
not_this t t' applied e = ground arith

module _ {ext : External} where
  on_rx-Within : (r : RxEvent) (s : Session ext) → Within (seen s) (on_rx r s)
  unfolding on_rx
  on_rx-Within r s =
      if_rule (Within (seen s)) (not (is_ready s.phase)) _ _ (inl refl)
        (if_rule (Within (seen s)) _ _ _ (inl refl) (emit-Within _ _ _ s))

  -- Behind a transmission that is in flight.
  landed_view :
      (s : Session ext)
      → s.phase ≡ ready
      → s.tx_in_flight ≡ true
      → seen (record s { tx_in_flight = false }) ≡ freed (seen s)
  landed_view s p f = rw (p, f) refl

  send_result-Within :
      (o : TxOutcome) (s : Session ext)
      → Within (seen (record s { tx_in_flight = false })) (map_and_send_tx_result o s)
  unfolding map_and_send_tx_result
  send_result-Within o s = emit-Within _ _ _ (record s { tx_in_flight = false })

  gone_stays : (e : SinkEvent) (s : Session ext) → Within (see e gone) s → seen s ≡ gone
  gone_stays (rx r) s h = elim h [ inl g ↦ g | inr g ↦ g ]
  gone_stays (tx_complete o) s h = elim h [ inl g ↦ g | inr g ↦ g ]
  gone_stays backend_failure s h = elim h [ inl g ↦ g | inr g ↦ g ]
  gone_stays (configure_complete t r) s h = elim h [ inl g ↦ g | inr g ↦ g ]

  on_tx_complete-Within :
      (o : TxOutcome) (s : Session ext)
      → SessionInv s
      → Within (freed (seen s)) (on_tx_complete o s)
  unfolding on_tx_complete
  on_tx_complete-Within o s v =
      if_split (Within (freed (seen s))) s.tx_in_flight _ _
        (λ f.
          subst (λ (w : View). Within w (map_and_send_tx_result o s)) (landed_view s (v.flight f) f)
            (send_result-Within o s))
        (λ f. inl (
          ap (view_of s.phase s.config_op_token) f
          ∙ sym (not_busy s.phase s.config_op_token)
          ∙ ap (λ (x : Bool). freed (view_of s.phase s.config_op_token x)) (sym f)))

  pub refuse_config-gone : (code : ℕ) (s : Session ext) → seen (refuse_config code s) ≡ gone
  unfolding refuse_config
  refuse_config-gone code s = close_gone _ _

  confirm_config-Within :
      (now : ℕ) (res : ConfigureResult) (s : Session ext)
      → s.tx_in_flight ≡ false
      → Within free (confirm_config now res s)
  unfolding confirm_config enter_ready disarm
  confirm_config-Within now res s f =
      let s' : Session ext = record s { applied_cfg = res.effective } in
      then_emitted-Within free s' _ _ (emit-Emits _ _ _ s')
        (λ s'' h. inl (ap (view_of ready s''.config_op_token) (h.1 ∙ f)))

  on_configure_complete-Within :
      (now token : ℕ) (res : ConfigureResult) (s : Session ext)
      → SessionInv s
      → Within (configured token res.applied (seen s)) (on_configure_complete now token res s)
  unfolding on_configure_complete
  on_configure_complete-Within now token res s v =
      let w = configured token res.applied (seen s) in
      let t = s.config_op_token in
      if_split (Within w) (not (is_configuring s.phase)) _ _
        (λ e.
          inl (sym (not_awaiting token res.applied s.phase t s.tx_in_flight (ground (arith, e)))))
        (λ e.
          let p = is_configuring_lem s.phase (ground (arith, e)) in
          let here : seen s ≡ awaiting t = ap (λ (x : Phase). view_of x t s.tx_in_flight) p in
          if_split (Within w) (not (token == t)) _ _
            (λ e'. inl (
              here
              ∙ sym (not_this token t res.applied (ground (arith, e')))
              ∙ ap (configured token res.applied) (sym here)))
            (λ e'.
              if_split (Within w)
                (not res.applied || not (ext.config_equal res.effective s.requested_cfg)) _ _
                (λ e''. inr (refuse_config-gone cfg_unsupported s))
                (λ e''.
                  let all : w ≡ free =
                    ap (configured token res.applied) here ∙ ground (arith, e', e'') in
                  subst (λ (x : View). Within x (confirm_config now res s)) (sym all)
                    (confirm_config-Within now res s (ground (arith, v.flight, p))))))

  on_event-Within :
      (now : ℕ) (e : SinkEvent) (s : Session ext)
      → SessionInv s
      → Within (see e (seen s)) (on_event now e s)
  unfolding on_event on_backend_failure
  on_event-Within now (rx r) s v = on_rx-Within r s
  on_event-Within now (tx_complete o) s v = on_tx_complete-Within o s v
  on_event-Within now backend_failure s v = inr (close_gone _ s)
  on_event-Within now (configure_complete t res) s v = on_configure_complete-Within now t res s v

  -- The calls of one poll.
  pub on_events-Within :
      (now : ℕ) (es : List SinkEvent) (w : View) (s : Session ext)
      → SessionInv s
      → Within w s
      → Within (see_all es w) (on_events now es s)
  unfolding on_events see_all
  on_events-Within now [] w s v h = h
  on_events-Within now (e ∷ es) w s v (inl h) =
      on_events-Within now es (see e w) (on_event now e s) (on_event-Inv now e s v)
        (subst (λ (x : View). Within (see e x) (on_event now e s)) h (on_event-Within now e s v))
  on_events-Within now (e ∷ es) w s v (inr h) =
      on_events-Within now es (see e w) (on_event now e s) (on_event-Inv now e s v) (
        inr (
          gone_stays e (on_event now e s) (
            subst (λ (x : View). Within (see e x) (on_event now e s)) h
              (on_event-Within now e s v))))

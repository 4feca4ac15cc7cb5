-- ===== src/Xr/Session/View.antt =====
-- What a session holds of its backend, and what frames and closing do to it.
use meshcom_loraham_bridge.Prelude.{
  ℕ, Bool, true, false, ◌==◌, length, Bytes, ◌≡◌, ◌⊎◌, inl, inr, refl, arith, if_rule,
}
use meshcom_loraham_bridge.Loraham.Backend.View.{View, idle, awaiting, free, busy, gone}
use meshcom_loraham_bridge.Xr.Codec.{External}
use meshcom_loraham_bridge.Xr.Outbox.{append}
use meshcom_loraham_bridge.Xr.Session.{
  Session, Phase, configuring, ready, closed, CloseReason, is_closed, close, emit,
}
use meshcom_loraham_bridge.Xr.Session.Handle.{then_emitted}

abbrev pub view_of : Phase → ℕ → Bool → View
view_of configuring token in_flight = awaiting token
view_of ready token true = busy
view_of ready token false = free
view_of closed token in_flight = gone
view_of _ token in_flight = idle

module _ {ext : External} where
  abbrev pub seen : Session ext → View
  seen s = view_of s.phase s.config_op_token s.tx_in_flight

  -- The view is as given, or the session has ended.
  abbrev pub Within : View → Session ext → Type 0
  Within w s = (seen s ≡ w) ⊎ (seen s ≡ gone)

  pub close_gone : (r : CloseReason) (s : Session ext) → seen (close r s) ≡ gone
  unfolding close is_closed
  close_gone r s = ground arith

  -- What a frame that is emitted, or not, leaves of the session.
  abbrev pub Emits : Session ext → Bool × Session ext → Type 0
  Emits s (true, s') =
      (s'.phase ≡ s.phase)
      × (s'.tx_in_flight ≡ s.tx_in_flight)
      × (s'.config_op_token ≡ s.config_op_token)
  Emits s (false, s') = seen s' ≡ gone

  pub emit-Emits :
      (type seq : ℕ) (payload : Bytes) (s : Session ext) → Emits s (emit type seq payload s)
  unfolding emit
  emit-Emits type seq payload s =
      if_rule (Emits s) (length (ext.encode type seq payload) == 0) _ _ (close_gone _ s) (
        if_rule (Emits s) (append (ext.encode type seq payload) s.outbox).0 _ _ (refl, refl, refl)
          (close_gone _ s))

  Emits-Within : (s : Session ext) (r : Bool × Session ext) → Emits s r → Within (seen s) r.1
  Emits-Within s (true, s') (p, f, t) = inl (ground (arith, p, f, t))
  Emits-Within s (false, s') h = inr h

  pub emit-Within :
      (type seq : ℕ) (payload : Bytes) (s : Session ext)
      → Within (seen s) (emit type seq payload s).1
  emit-Within type seq payload s = Emits-Within s _ (emit-Emits type seq payload s)

  pub then_emitted-Within :
      (w : View) (s : Session ext) (r : Bool × Session ext) (next : Session ext → Session ext)
      → Emits s r
      → ((s' : Session ext) → Emits s (true, s') → Within w (next s'))
      → Within w (then_emitted r next)
  then_emitted-Within w s (true, s') next h later = later s' h
  then_emitted-Within w s (false, s') next h later = inr h

-- ===== src/Loraham/Backend/View.antt =====
-- What a session knows of its backend, from the calls of its sink.
use meshcom_loraham_bridge.Prelude.{
  ℕ, ◌≤◌, Bool, true, List, [], ◌∷◌, ◌++◌, ◌==◌, if◌then◌else◌, length, ◌≡◌, ◌⊎◌, refl, ap, sym,
  subst, ◌∙◌, arith,
}
use meshcom_loraham_bridge.Radio.{SinkEvent, rx, tx_complete, backend_failure, configure_complete}
use meshcom_loraham_bridge.Loraham.Framing.{rx_frame_max}
use meshcom_loraham_bridge.Loraham.Backend.{
  Backend, State, disconnected, connecting, configuring, ready, tx_writing, tx_pending, draining,
  faulted, emit, reset_link_unconfigured, enter_fault, handle_disconnect,
}

-- Nothing is asked of the backend; a configuration with this token is awaited; it is configured, and
-- has no packet or one; the session has ended.
pub data View : Type 0 where
  idle : View
  awaiting : ℕ → View
  free busy gone : View

-- The view behind a completion of a configuration and behind one of a packet.
abbrev pub configured : ℕ → Bool → View → View
configured t applied (awaiting t') =
    if t == t' then (if applied then free else gone) else awaiting t'
configured t applied v = v

abbrev pub freed : View → View
freed busy = free
freed v = v

abbrev pub see : SinkEvent → View → View
see (rx r) v = v
see (tx_complete o) v = freed v
see backend_failure v = gone
see (configure_complete t r) v = configured t r.applied v

unfoldable pub see_all : List SinkEvent → View → View
see_all [] v = v
see_all (e ∷ es) v = see_all es (see e v)

pub see_all-append :
    (es : List SinkEvent) (e : SinkEvent) (v : View)
    → see_all (es ++ e ∷ []) v ≡ see e (see_all es v)
unfolding see_all
see_all-append [] e v = refl
see_all-append (x ∷ es) e v = see_all-append es e (see x v)

-- The backend of a session with that view.
abbrev pub In : View → Backend → Type 0
In idle b = (b.state ≡ disconnected) ⊎ ((b.state ≡ draining) ⊎ (b.state ≡ faulted))
In (awaiting t) b = ((b.state ≡ connecting) ⊎ (b.state ≡ configuring)) × (b.config_token ≡ t)
In free b = b.state ≡ ready
In busy b = (b.state ≡ tx_writing) ⊎ (b.state ≡ tx_pending)
In gone b = Unit

-- The states of a backend in use: the session is configured, or was.
abbrev pub InUse : View → State → Type 0
InUse free s = s ≡ ready
InUse busy s = (s ≡ tx_writing) ⊎ (s ≡ tx_pending)
InUse gone s = Unit
InUse _ s = ⊥

-- A result that comes now is the one of the packet in flight.
abbrev pub Current : Backend → Type 0
Current b = InUse busy b.state → b.pending_epoch ≡ b.tx_epoch

-- A backend in use whose session had the view `v` before these calls of the sink.
pub record Tracks (v : View) (b : Backend) : Type 0 where
  pub heard : b.sink ≡ true
  pub fits : length b.parser.buf ≤ rx_frame_max
  pub current : Current b
  pub view : View
  pub seen : see_all b.events v ≡ view
  pub follows : InUse view b.state

heard_emit :
    (e : SinkEvent) (b : Backend)
    → b.sink ≡ true
    → emit e b ≡ record b { events = b.events ++ e ∷ [] }
unfolding emit
heard_emit e b h = ap (λ (k : Bool). if k then record b { events = b.events ++ e ∷ [] } else b) h

module _ (v : View) where
  pub emit-Tracks :
      (e : SinkEvent) (b : Backend) (w : View)
      → b.sink ≡ true
      → length b.parser.buf ≤ rx_frame_max
      → Current b
      → see_all b.events v ≡ w
      → InUse (see e w) b.state
      → Tracks v (emit e b)
  emit-Tracks e b w heard fits current seen follows =
      subst (Tracks v) (sym (heard_emit e b heard)) (record {
        heard = heard;
        fits = fits;
        current = current;
        view = see e w;
        seen = see_all-append b.events e v ∙ ap (see e) seen;
        follows = follows;
      })

  -- Nothing is told, and the state is as it was.
  pub same-Tracks :
      (b b' : Backend)
      → Tracks v b
      → b'.sink ≡ b.sink
      → b'.events ≡ b.events
      → b'.state ≡ b.state
      → length b'.parser.buf ≤ rx_frame_max
      → Current b'
      → Tracks v b'
  same-Tracks b b' t s e st f c = record {
    heard = s ∙ t.heard;
    fits = f;
    current = c;
    view = t.view;
    seen = ap (λ (es : List SinkEvent). see_all es v) e ∙ t.seen;
    follows = subst (InUse t.view) (sym st) t.follows;
  }

  -- Whatever the state, a link that is lost ends the session.
  pub lost-Tracks :
      (b : Backend) → b.sink ≡ true → Tracks v (emit backend_failure (reset_link_unconfigured b))
  unfolding reset_link_unconfigured
  lost-Tracks b h =
      emit-Tracks backend_failure (reset_link_unconfigured b) (see_all b.events v) h (omega arith)
        (λ s. ground arith) refl tt

  faulted-Tracks : (b : Backend) → b.sink ≡ true → Tracks v (emit backend_failure (enter_fault b))
  unfolding enter_fault
  faulted-Tracks b h =
      emit-Tracks backend_failure (enter_fault b) (see_all (enter_fault b).events v) (ground arith)
        (ground arith) (λ s. ground arith) refl tt

  -- Without a call of the sink, where the session has ended before.
  pub quiet-Tracks :
      (b b' : Backend)
      → Tracks v b
      → (see_all b.events v ≡ gone)
      → b'.sink ≡ b.sink
      → b'.events ≡ b.events
      → length b'.parser.buf ≤ rx_frame_max
      → Current b'
      → Tracks v b'
  quiet-Tracks b b' t g s e f c = record {
    heard = s ∙ t.heard;
    fits = f;
    current = c;
    view = gone;
    seen = ap (λ (es : List SinkEvent). see_all es v) e ∙ g;
    follows = tt;
  }

  -- Of a backend that drains, or has no link, the session has ended.
  pub ended_view : (s : State) (w : View) → InUse w s → (s ≡ draining) → w ≡ gone
  ended_view s w f e = ground arith

  ended_seen : (b : Backend) → Tracks v b → b.state ≡ draining → see_all b.events v ≡ gone
  ended_seen b t e = t.seen ∙ ended_view b.state t.view t.follows e

  pub reset_drained-Tracks :
      (b : Backend) → Tracks v b → b.state ≡ draining → Tracks v (reset_link_unconfigured b)
  unfolding reset_link_unconfigured
  reset_drained-Tracks b t e =
      quiet-Tracks b (reset_link_unconfigured b) t (ended_seen b t e) refl refl (omega arith)
        (λ s. ground arith)

  pub enter_fault_drained-Tracks :
      (b : Backend) → Tracks v b → b.state ≡ draining → Tracks v (enter_fault b)
  unfolding enter_fault
  enter_fault_drained-Tracks b t e =
      quiet-Tracks b (enter_fault b) t (ended_seen b t e) (ground arith) (ground arith)
        (ground arith) (λ s. ground arith)

pub handle_disconnect-Tracks :
    (v : View) (b : Backend) → Tracks v b → Tracks v (handle_disconnect b)
unfolding handle_disconnect
handle_disconnect-Tracks v b t =
    ground
      (arith, enter_fault_drained-Tracks v b t, faulted-Tracks v b t.heard, lost-Tracks v b t.heard)

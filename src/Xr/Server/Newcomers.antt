-- ===== src/Xr/Server/Newcomers.antt =====
-- xr_server.cpp: try_accept with a client and without one.
use meshcom_loraham_bridge.Prelude.{
  ℕ, ◌+◌, Bool, true, not, Option, none, some, List, [], ◌∷◌, ◌≡◌, ◌⊎◌, refl, ap, inl, inr, if_rule,
  if_split, is_present, absent, without-cons, subst, sym,
}
use meshcom_loraham_bridge.Radio.{RadioBackend}
use meshcom_loraham_bridge.Loraham.Backend.View.{View}
use meshcom_loraham_bridge.Xr.Session.View.{seen}
use meshcom_loraham_bridge.Xr.Session.Agree.{ViewLaws}
use meshcom_loraham_bridge.Xr.Codec.{External}
use meshcom_loraham_bridge.Xr.Connection.Keeps.{IsUp, open_connection-Works}
use meshcom_loraham_bridge.Xr.Server.{
  Accept, accepted, accept_failed, none_pending, out_of_resources, transient, Arrival, Client,
  Server, accept_backoff_ms, new_session, new_connection, take_client, refuse, admit_client,
  try_accept,
}

module _ {ext : External} (rb : RadioBackend) where
  refuse_lem : (fd : ℕ) (sv : Server ext rb) → refuse rb fd sv ≡ sv
  unfolding refuse
  refuse_lem fd sv =
      ap (λ (fds : List ℕ). record sv { open_fds = fds }) (without-cons fd sv.open_fds)

  admit_client_busy :
      (fd : ℕ) (nonblocking : Bool) (a : Arrival) (sv : Server ext rb) (c : Client ext)
      → sv.client ≡ some c
      → admit_client rb fd nonblocking a sv ≡ sv
  unfolding admit_client
  admit_client_busy fd nonblocking a sv c e =
      let present : is_present sv.client ≡ true = ap is_present e in rw present (refuse_lem fd sv)

  -- While there is a client, whatever accept answers changes nothing but the time slept: every
  -- newcomer is closed at once, and the client, its backend and its descriptor stay as they are.
  pub try_accept_busy :
      (answers : List Accept) (sv : Server ext rb) (c : Client ext)
      → sv.client ≡ some c
      → (t : ℕ) × (try_accept rb answers sv ≡ record sv { slept_ms = t })
        × ((t ≡ sv.slept_ms) ⊎ (t ≡ sv.slept_ms + accept_backoff_ms))
  unfolding try_accept
  try_accept_busy [] sv c e = (sv.slept_ms, refl, inl refl)
  try_accept_busy (accepted fd nonblocking a ∷ answers) sv c e =
      rw (admit_client_busy fd nonblocking a sv c e) (try_accept_busy answers sv c e)
  try_accept_busy (accept_failed out_of_resources ∷ answers) sv c e =
      (sv.slept_ms + accept_backoff_ms, refl, inr refl)
  try_accept_busy (accept_failed none_pending ∷ answers) sv c e = (sv.slept_ms, refl, inl refl)
  try_accept_busy (accept_failed transient ∷ answers) sv c e = (sv.slept_ms, refl, inl refl)

module _ {ext : External} (rb : RadioBackend) (F : View → rb.Backend → Type 0)
    (P : rb.Backend → Type 0) where
  -- A server between two rounds: with no client no descriptor is open and the backend reports to
  -- nobody; else the client's is the only one, and the backend agrees with its session.
  abbrev pub Holds : Option (Client ext) → List ℕ → rb.Backend → Type 0
  Holds none fds b = (fds ≡ []) × P b
  Holds (some c) fds b = (fds ≡ c.fd ∷ []) × IsUp c.conn × F (seen c.conn.session) b

  abbrev pub Serves : Server ext rb → Type 0
  Serves sv = Holds sv.client sv.open_fds sv.backend

module _ {ext : External} (rb : RadioBackend) (F : View → rb.Backend → Type 0)
    (P : rb.Backend → Type 0) (laws : ViewLaws rb F P) where
  take_client-Serves :
      (fd : ℕ) (a : Arrival) (sv : Server ext rb)
      → Serves rb F P sv
      → sv.client ≡ none
      → Serves rb F P (take_client rb fd a sv)
  unfolding take_client
  take_client-Serves fd a sv v e =
      let (no_fds, p) =
        subst (λ (o : Option (Client ext)). Holds rb F P o sv.open_fds sv.backend) e v in
      let s = new_session sv.auth sv.to sv.max_outbox a in
      let works = open_connection-Works rb F P laws a.at (new_connection s) sv.backend p in
      (ap (◌∷◌ fd) no_fds, works.0, works.1)

  admit_client-Serves :
      (fd : ℕ) (nonblocking : Bool) (a : Arrival) (sv : Server ext rb)
      → Serves rb F P sv
      → Serves rb F P (admit_client rb fd nonblocking a sv)
  unfolding admit_client
  admit_client-Serves fd nonblocking a sv v =
      let refused = subst (Serves rb F P) (sym (refuse_lem rb fd sv)) v in
      if_split (Serves rb F P) (is_present sv.client) _ _ (λ e. refused)
        (λ e.
          if_rule (Serves rb F P) (not nonblocking) _ _ refused
            (take_client-Serves fd a sv v (absent sv.client e)))

  pub try_accept-Serves :
      (answers : List Accept) (sv : Server ext rb)
      → Serves rb F P sv
      → Serves rb F P (try_accept rb answers sv)
  unfolding try_accept
  try_accept-Serves [] sv v = v
  try_accept-Serves (accepted fd nonblocking a ∷ answers) sv v =
      try_accept-Serves answers _ (admit_client-Serves fd nonblocking a sv v)
  try_accept-Serves (accept_failed out_of_resources ∷ answers) sv v = v
  try_accept-Serves (accept_failed none_pending ∷ answers) sv v = v
  try_accept-Serves (accept_failed transient ∷ answers) sv v = v

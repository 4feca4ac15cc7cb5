-- ===== src/Xr/Session/Feed/Keeps.antt =====
-- feed ends, and keeps a session's invariant.
use meshcom_loraham_bridge.Prelude.{
  ℕ, zero, suc, ◌+◌, ◌*◌, ◌≤◌, ◌<◌, Bool, true, false, Option, none, some, [], ◌∷◌, ◌≡◌, refl,
  arith, length, drop, length-drop, Bytes, if_rule, ap,
}
use meshcom_loraham_bridge.Radio.{RadioBackend}
use meshcom_loraham_bridge.Xr.Codec.{
  External, ParserLaws, XrPop, need_more, got_frame, pop_error, XrPush, push_ok,
}
use meshcom_loraham_bridge.Xr.Session.{Session, is_closed, parser_error}
use meshcom_loraham_bridge.Xr.Session.Handle.{handle_frame}
use meshcom_loraham_bridge.Xr.Session.Invariant.{SessionInv, close-SessionInv}
use meshcom_loraham_bridge.Xr.Session.Keeps.{handle_frame-Inv}
use meshcom_loraham_bridge.Xr.Session.Feed.{
  push_is_fatal, feed_pushed, feed_more, feed_handled, feed_round, feed_loop, feed_fuel, feed,
}
use meshcom_loraham_bridge.Xr.Session.Feed.Parser.{handle_frame_parser}

module _ {ext : External} (rb : RadioBackend) where
  -- What is shown of the loop: it ends, and well.
  abbrev Done : Option (Session ext × rb.Backend) → Type 0
  Done none = ⊥
  Done (some r) = SessionInv r.0

  -- `more` ends well on all that has a smaller measure than `n`.
  abbrev Goes : (Bytes → Session ext × rb.Backend → Option (Session ext × rb.Backend)) → ℕ → Type 0
  Goes more n =
      (bytes : Bytes) (s : Session ext) (b : rb.Backend)
      → SessionInv s
      → ext.have s.parser + 2 * length bytes < n
      → Done (more bytes (s, b))

  parsed_Inv :
      (p : ext.Parser) (s : Session ext) → SessionInv s → SessionInv (record s { parser = p })
  parsed_Inv p s v = record {
    log = v.log;
    reason = v.reason;
    timer = v.timer;
    expiry = v.expiry;
    flight = v.flight;
    buffer = v.buffer;
  }

  feed_pushed-Done :
      (more : Bytes → Session ext × rb.Backend → Option (Session ext × rb.Backend)) (fatal : Bool)
      (rest : Bytes) (s : Session ext) (b : rb.Backend)
      → SessionInv s
      → (fatal ≡ false → Done (more rest (s, b)))
      → Done (feed_pushed rb more fatal rest (s, b))
  unfolding feed_pushed
  feed_pushed-Done more true rest s b v h = close-SessionInv parser_error s v (λ k. cc)
  feed_pushed-Done more false rest s b v h = h refl

  feed_handled-Done :
      (more : Bytes → Session ext × rb.Backend → Option (Session ext × rb.Backend)) (ends : Bool)
      (bytes : Bytes) (r : Session ext × rb.Backend)
      → SessionInv r.0
      → Done (more bytes r)
      → Done (feed_handled rb more ends bytes r)
  unfolding feed_handled
  feed_handled-Done more true bytes r v h = v
  feed_handled-Done more false bytes r v h = h

push_some :
    (status : XrPush) (took size : ℕ)
    → push_is_fatal status took ≡ false
    → (status ≡ push_ok → took ≡ size)
    → 1 ≤ size
    → 1 ≤ took
unfolding push_is_fatal
push_some status took size e all h = ground arith

module _ {ext : External} (rb : RadioBackend) (laws : ParserLaws ext) where
  feed_more-Done :
      (more : Bytes → Session ext × rb.Backend → Option (Session ext × rb.Backend)) (n : ℕ)
      (bytes : Bytes) (s : Session ext) (b : rb.Backend)
      → SessionInv s
      → Goes rb more n
      → ext.have s.parser + 2 * length bytes < suc n
      → Done rb (feed_more rb more bytes (s, b))
  unfolding feed_more
  feed_more-Done more n [] s b v goes h = v
  feed_more-Done more n (x ∷ xs) s b v goes h =
      let (status, took, p) = ext.parser_push s.parser (x ∷ xs) in
      let taken = laws.push_takes s.parser (x ∷ xs) in
      let v' = parsed_Inv rb p s v in
      feed_pushed-Done rb more (push_is_fatal status took) (drop took (x ∷ xs))
        (record s { parser = p }) b v'
        (λ e.
          goes (drop took (x ∷ xs)) (record s { parser = p }) b v'
            (omega (
              arith,
              taken,
              length-drop took (x ∷ xs),
              push_some status took (length (x ∷ xs)) e (laws.push_all s.parser (x ∷ xs))
                  (omega arith),
              h,
            )))

  feed_round-Done :
      (more : Bytes → Session ext × rb.Backend → Option (Session ext × rb.Backend)) (now n : ℕ)
      (bytes : Bytes) (s : Session ext) (b : rb.Backend) (r : XrPop) (p : ext.Parser)
      → SessionInv s
      → Goes rb more n
      → ext.have s.parser + 2 * length bytes < suc n
      → ext.parser_pop s.parser ≡ (r, p)
      → Done rb (feed_round rb more now bytes r (record s { parser = p }, b))
  unfolding feed_round
  feed_round-Done more now n bytes s b need_more p v goes h e =
      feed_more-Done more n bytes (record s { parser = p }) b (parsed_Inv rb p s v) goes
        (omega (arith, h, laws.pop_keeps s.parser p e))
  feed_round-Done more now n bytes s b pop_error p v goes h e =
      close-SessionInv parser_error (record s { parser = p }) (parsed_Inv rb p s v) (λ k. cc)
  feed_round-Done more now n bytes s b (got_frame f) p v goes h e =
      let popped : Session ext = record s { parser = p } in
      let next = handle_frame rb now f (popped, b) in
      let v' = handle_frame-Inv rb now f popped b (parsed_Inv rb p s v) in
      let same = ap (λ (q : ext.Parser). ext.have q) (handle_frame_parser rb now f popped b) in
      feed_handled-Done rb more _ bytes next v'
        (goes bytes next.0 next.1 v' (omega (arith, h, same, laws.pop_shrinks s.parser f p e)))

  feed_loop-Done : (now fuel : ℕ) → Goes {ext = ext} rb (feed_loop rb fuel now) fuel
  unfolding feed_loop
  feed_loop-Done now zero bytes s b v h = absurd (omega arith)
  feed_loop-Done now (suc fuel) bytes s b v h =
      feed_round-Done (feed_loop rb fuel now) now fuel bytes s b (ext.parser_pop s.parser).0
        (ext.parser_pop s.parser).1 v (feed_loop-Done now fuel) h refl

  Done-some :
      (r : Option (Session ext × rb.Backend))
      → Done rb r
      → (next : Session ext × rb.Backend) × (r ≡ some next) × SessionInv next.0
  Done-some none d = absurd d
  Done-some (some next) d = (next, refl, d)

  feed-Done :
      (now : ℕ) (bytes : Bytes) (s : Session ext) (b : rb.Backend)
      → SessionInv s
      → Done rb (feed rb now bytes (s, b))
  unfolding feed
  feed-Done now bytes s b v =
      if_rule (Done rb) (is_closed s.phase) _ _ v
        (feed_loop-Done now (feed_fuel rb bytes s) bytes s b v (omega arith))

  -- If the vendored parser obeys its laws, the loop over the bytes of a read always ends within its
  -- fuel, and it keeps the invariant.
  pub feed-SessionInv :
      (now : ℕ) (bytes : Bytes) (s : Session ext) (b : rb.Backend)
      → SessionInv s
      → (next : Session ext × rb.Backend) × (feed rb now bytes (s, b) ≡ some next)
        × SessionInv next.0
  feed-SessionInv now bytes s b v = Done-some _ (feed-Done now bytes s b v)

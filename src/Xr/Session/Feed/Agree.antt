-- ===== src/Xr/Session/Feed/Agree.antt =====
-- feed keeps what a parser's step, a frame and the end of the session keep.
use meshcom_loraham_bridge.Prelude.{
  ℕ, zero, suc, Bool, true, false, Option, none, some, [], ◌∷◌, ◌≡◌, drop, Bytes, if_rule, subst,
}
use meshcom_loraham_bridge.Radio.{RadioBackend}
use meshcom_loraham_bridge.Loraham.Backend.View.{View}
use meshcom_loraham_bridge.Xr.Codec.{External, XrPop, need_more, got_frame, pop_error}
use meshcom_loraham_bridge.Xr.Session.{Session, is_closed, close, parser_error}
use meshcom_loraham_bridge.Xr.Session.View.{seen, close_gone}
use meshcom_loraham_bridge.Xr.Session.Agree.{ViewLaws, Agree, ended, handle_frame-Agree}
use meshcom_loraham_bridge.Xr.Session.Handle.{handle_frame}
use meshcom_loraham_bridge.Xr.Session.Feed.{
  push_is_fatal, feed_pushed, feed_more, feed_handled, feed_round, feed_loop, feed,
}

module _ {ext : External} (rb : RadioBackend) (F : View → rb.Backend → Type 0)
    (P : rb.Backend → Type 0) (laws : ViewLaws rb F P) where
  abbrev AgreeIf : Option (Session ext × rb.Backend) → Type 0
  AgreeIf none = Unit {0}
  AgreeIf (some r) = Agree rb F P laws r

  -- `more` keeps it whatever it is called on.
  abbrev Keeps : (Bytes → Session ext × rb.Backend → Option (Session ext × rb.Backend)) → Type 0
  Keeps more =
      (bytes : Bytes) (r : Session ext × rb.Backend) → Agree rb F P laws r → AgreeIf (more bytes r)

  module _ (more : Bytes → Session ext × rb.Backend → Option (Session ext × rb.Backend))
      (keep : Keeps more) where
    broken-Agree :
        (s : Session ext) (b : rb.Backend)
        → Agree rb F P laws (s, b)
        → Agree rb F P laws (close parser_error s, b)
    broken-Agree s b h =
        ended rb F P laws (close parser_error s) b (close_gone parser_error s)
          (laws.ends (seen s) b h)

    feed_pushed-Agree :
        (fatal : Bool) (rest : Bytes) (s : Session ext) (b : rb.Backend)
        → Agree rb F P laws (s, b)
        → AgreeIf (feed_pushed rb more fatal rest (s, b))
    unfolding feed_pushed
    feed_pushed-Agree true rest s b h = broken-Agree s b h
    feed_pushed-Agree false rest s b h = keep rest (s, b) h

    feed_more-Agree :
        (bytes : Bytes) (s : Session ext) (b : rb.Backend)
        → Agree rb F P laws (s, b)
        → AgreeIf (feed_more rb more bytes (s, b))
    unfolding feed_more
    feed_more-Agree [] s b h = h
    feed_more-Agree (x ∷ xs) s b h =
        let (status, took, q) = ext.parser_push s.parser (x ∷ xs) in
        feed_pushed-Agree (push_is_fatal status took) (drop took (x ∷ xs)) (record s { parser = q })
          b h

    feed_handled-Agree :
        (ends : Bool) (bytes : Bytes) (r : Session ext × rb.Backend)
        → Agree rb F P laws r
        → AgreeIf (feed_handled rb more ends bytes r)
    unfolding feed_handled
    feed_handled-Agree true bytes r h = h
    feed_handled-Agree false bytes r h = keep bytes r h

    feed_round-Agree :
        (now : ℕ) (bytes : Bytes) (r : XrPop) (s : Session ext) (b : rb.Backend)
        → Agree rb F P laws (s, b)
        → AgreeIf (feed_round rb more now bytes r (s, b))
    unfolding feed_round
    feed_round-Agree now bytes need_more s b h = feed_more-Agree bytes s b h
    feed_round-Agree now bytes pop_error s b h = broken-Agree s b h
    feed_round-Agree now bytes (got_frame f) s b h =
        feed_handled-Agree _ bytes (handle_frame rb now f (s, b))
          (handle_frame-Agree rb F P laws now f s b h)

  feed_loop-Keeps : (now fuel : ℕ) → Keeps (feed_loop rb fuel now)
  unfolding feed_loop
  feed_loop-Keeps now zero bytes (s, b) h = tt
  feed_loop-Keeps now (suc fuel) bytes (s, b) h =
      feed_round-Agree (λ rest next. feed_loop rb fuel now rest next) (feed_loop-Keeps now fuel) now
        bytes (ext.parser_pop s.parser).0 (record s { parser = (ext.parser_pop s.parser).1 }) b h

  pub feed-Agree :
      (now : ℕ) (bytes : Bytes) (s : Session ext) (b : rb.Backend)
      → Agree rb F P laws (s, b)
      → (next : Session ext × rb.Backend) → feed rb now bytes (s, b) ≡ some next
      → Agree rb F P laws next
  unfolding feed
  feed-Agree now bytes s b h next e =
      subst AgreeIf e
        (if_rule AgreeIf (is_closed s.phase) _ _ h (feed_loop-Keeps now _ bytes (s, b) h))

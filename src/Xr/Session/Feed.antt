-- ===== src/Xr/Session/Feed.antt =====
-- xr_session.cpp: feed, the loop over the bytes of one read of the socket.
pub mod Parser
pub mod Keeps
pub mod Agree
use meshcom_loraham_bridge.Prelude.{
  ℕ, zero, suc, ◌+◌, ◌*◌, Bool, true, false, ◌&&◌, Option, none, some, List, [], ◌∷◌, ◌==◌,
  if◌then◌else◌, length, drop, Bytes,
}
use meshcom_loraham_bridge.Radio.{RadioBackend}
use meshcom_loraham_bridge.Xr.Codec.{
  External, XrFrame, XrPop, need_more, got_frame, pop_error, XrPush, push_ok, push_need_drain,
  push_invalid,
}
use meshcom_loraham_bridge.Xr.Session.{Session, Phase, closed, is_closed, parser_error, close}
use meshcom_loraham_bridge.Xr.Session.Handle.{handle_frame}

-- PARSER_PUSH_INVALID_INPUT, or a full buffer that yields no frame.
push_is_fatal : XrPush → ℕ → Bool
push_is_fatal push_ok took = false
push_is_fatal push_need_drain took = took == 0
push_is_fatal push_invalid took = true

module _ {ext : External} (rb : RadioBackend) where
  -- What follows a push: the session is closed, or the loop goes on.
  feed_pushed :
      (Bytes → Session ext × rb.Backend → Option (Session ext × rb.Backend))
      → Bool
      → Bytes
      → Session ext × rb.Backend
      → Option (Session ext × rb.Backend)
  feed_pushed more true rest (s, b) = some (close parser_error s, b)
  feed_pushed more false rest (s, b) = more rest (s, b)

  -- A round after the parser needs more: it is given what is left of the read.
  feed_more :
      (Bytes → Session ext × rb.Backend → Option (Session ext × rb.Backend))
      → Bytes
      → Session ext × rb.Backend
      → Option (Session ext × rb.Backend)
  unfolding push_is_fatal feed_pushed
  feed_more more [] (s, b) = some (s, b)
  feed_more more (x ∷ xs) (s, b) =
      let (status, took, p) = ext.parser_push s.parser (x ∷ xs) in
      feed_pushed more (push_is_fatal status took) (drop took (x ∷ xs)) (record s { parser = p }, b)

  -- What follows a frame: a closed session ends the loop.
  feed_handled :
      (Bytes → Session ext × rb.Backend → Option (Session ext × rb.Backend))
      → Bool
      → Bytes
      → Session ext × rb.Backend
      → Option (Session ext × rb.Backend)
  feed_handled more true bytes next = some next
  feed_handled more false bytes next = more bytes next

  feed_round :
      (Bytes → Session ext × rb.Backend → Option (Session ext × rb.Backend))
      → ℕ
      → Bytes
      → XrPop
      → Session ext × rb.Backend
      → Option (Session ext × rb.Backend)
  unfolding feed_more feed_handled
  feed_round more now bytes need_more (s, b) = feed_more more bytes (s, b)
  feed_round more now bytes pop_error (s, b) = some (close parser_error s, b)
  feed_round more now bytes (got_frame f) (s, b) =
      let next = handle_frame rb now f (s, b) in
      feed_handled more (is_closed next.0.phase) bytes next

  -- `none` stands for a loop that has not ended within the fuel.
  unfoldable pub feed_loop :
      ℕ → ℕ → Bytes → Session ext × rb.Backend → Option (Session ext × rb.Backend)
  unfolding feed_round
  feed_loop zero now bytes (s, b) = none
  feed_loop (suc fuel) now bytes (s, b) =
      let (r, p) = ext.parser_pop s.parser in
      feed_round (λ rest next. feed_loop fuel now rest next) now bytes r
        (record s { parser = p }, b)

  -- A round takes a frame out of the parser, or moves a byte at least into it.
  abbrev pub feed_fuel : Bytes → Session ext → ℕ
  feed_fuel bytes s = suc (ext.have s.parser + 2 * length bytes)

  unfoldable pub feed : ℕ → Bytes → Session ext × rb.Backend → Option (Session ext × rb.Backend)
  unfolding is_closed
  feed now bytes (s, b) =
      if is_closed s.phase then some (s, b) else feed_loop (feed_fuel bytes s) now bytes (s, b)

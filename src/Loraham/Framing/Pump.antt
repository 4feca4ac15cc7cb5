-- ===== src/Loraham/Framing/Pump.antt =====
-- The loop that hands the bytes of one read to the parser and each frame to a handler; it stands in
-- LorahamBackend::advance_operational and in LorahamBackend::advance_drain.
use meshcom_loraham_bridge.Prelude.{
  ℕ, zero, suc, ◌<◌, Bool, [], ◌==◌, if◌then◌else◌, length, drop, Bytes, ◌≡◌, arith,
}
use meshcom_loraham_bridge.Loraham.Framing.Parse.{pop_need_more, push_takes}
use meshcom_loraham_bridge.Loraham.Framing.{
  Parser, Frame, need_more, got_frame, pop_error, parser_pop, parser_push,
}

-- How the loop ends: all bytes are taken, the handler has ended it, the stream is broken, or the
-- fuel ran out.
pub data Pumped {ℓ} (S : Type ℓ) : Type ℓ where
  drained : S → Pumped S
  ended : S → Pumped S
  broken : S → Pumped S
  stuck : Pumped S

module _ {ℓ} {S : Type ℓ} (parser_of : S → Parser) (set_parser : Parser → S → S)
    (dispatch : Frame → S → S) (stops : S → Bool) where
  unfoldable pub pump : ℕ → Bytes → S → Pumped S
  pump zero chunk s = stuck
  pump (suc fuel) chunk s =
      let (r, p) = parser_pop (parser_of s) in
      elim r [
        | got_frame f ↦
            let next = dispatch f (set_parser p s) in
            let more = pump fuel chunk next in if stops next then ended next else more
        | pop_error ↦ broken s
        | need_more ↦
            let (taken, q) = parser_push (parser_of s) chunk in
            let next = set_parser q s in
            let more = pump fuel (drop taken chunk) next in
            if length chunk == 0 then drained s else if taken == 0 then broken next else more
      ]

  -- One round of the loop, by what `parser_pop` finds.
  pub pump_error :
      (fuel : ℕ) (chunk : Bytes) (s : S)
      → (parser_pop (parser_of s)).0 ≡ pop_error
      → pump (suc fuel) chunk s ≡ broken s
  unfolding pump
  pump_error fuel chunk s e = rw (e, pump)

  pub pump_frame :
      (fuel : ℕ) (chunk : Bytes) (s : S) (f : Frame) (q : Parser)
      → parser_pop (parser_of s) ≡ (got_frame f, q)
      → pump (suc fuel) chunk s ≡ (
          if stops (dispatch f (set_parser q s))
          then ended (dispatch f (set_parser q s))
          else pump fuel chunk (dispatch f (set_parser q s)))
  unfolding pump
  pump_frame fuel chunk s f q e = ground arith

  pub pump_done :
      (fuel : ℕ) (s : S) (q : Parser)
      → parser_pop (parser_of s) ≡ (need_more, q)
      → pump (suc fuel) [] s ≡ drained s
  unfolding pump
  pump_done fuel s q e = rw (e, pump)

  -- The bytes go in as far as there is room, and there is room for one at least.
  pub pump_push :
      (fuel : ℕ) (chunk : Bytes) (s : S) (q : Parser)
      → parser_pop (parser_of s) ≡ (need_more, q)
      → 0 < length chunk
      → let r = parser_push (parser_of s) chunk in
        (pump (suc fuel) chunk s ≡ pump fuel (drop r.0 chunk) (set_parser r.1 s)) × (0 < r.0)
  unfolding pump
  pump_push fuel chunk s q e h = (
    ground (arith, pop_need_more (parser_of s) q e, push_takes (parser_of s) chunk),
    omega (arith, pop_need_more (parser_of s) q e, push_takes (parser_of s) chunk),
  )

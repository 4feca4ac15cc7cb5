-- ===== src/Loraham/Framing/PumpRule.antt =====
-- The rule of the read loop: with enough fuel it ends, and it keeps an invariant of its handler.
use meshcom_loraham_bridge.Prelude.{
  ℕ, zero, suc, ◌+◌, ◌*◌, ◌≤◌, ◌<◌, Bool, true, false, [], ◌∷◌, length, drop, length-drop, Bytes,
  ◌≡◌, refl, ap, arith, Bool-cases, inl, inr,
}
use meshcom_loraham_bridge.Loraham.Framing.{
  Parser, Frame, PopResult, need_more, got_frame, pop_error, parser_pop, parser_push, rx_frame_max,
}
use meshcom_loraham_bridge.Loraham.Framing.Parse.{push_sizes, buf_shorter}
use meshcom_loraham_bridge.Loraham.Framing.Pump.{
  Pumped, drained, ended, broken, stuck, pump, pump_error, pump_frame, pump_done, pump_push,
}

-- The loop ends in a state that satisfies `P`, or `Q` where the handler has stopped it.
abbrev pub Ends {ℓ} : {S : Type ℓ} → (P Q : S → Type 0) → Pumped S → Type 0
Ends P Q (drained s) = P s
Ends P Q (ended s) = Q s
Ends P Q (broken s) = P s
Ends P Q stuck = ⊥

-- What the rule asks of the handler. The parser is part of the state, and the handler does not fill
-- it.
pub record Keeps {ℓ} {S : Type ℓ} (P Q : S → Type 0) (parser_of : S → Parser)
    (set_parser : Parser → S → S) (dispatch : Frame → S → S) (stops : S → Bool) : Type ℓ where
  pub parser_set : (p : Parser) (s : S) → parser_of (set_parser p s) ≡ p
  pub bounded : (s : S) → P s → length (parser_of s).buf ≤ rx_frame_max
  pub on_parser : (p : Parser) (s : S) → P s → length p.buf ≤ rx_frame_max → P (set_parser p s)
  pub goes_on : (f : Frame) (s : S) → P s → stops (dispatch f s) ≡ false → P (dispatch f s)
  pub at_stop : (f : Frame) (s : S) → P s → stops (dispatch f s) ≡ true → Q (dispatch f s)
  pub no_longer :
      (f : Frame) (s : S) → length (parser_of (dispatch f s)).buf ≤ length (parser_of s).buf

module _ {ℓ} {S : Type ℓ} (P Q : S → Type 0) (parser_of : S → Parser) (set_parser : Parser → S → S)
    (dispatch : Frame → S → S) (stops : S → Bool)
    (keeps : Keeps P Q parser_of set_parser dispatch stops) where
  abbrev run : ℕ → Bytes → S → Pumped S
  run = pump parser_of set_parser dispatch stops

  abbrev Ok : ℕ → Type ℓ
  Ok fuel =
      (chunk : Bytes) (s : S)
      → P s
      → length (parser_of s).buf + 2 * length chunk < fuel
      → Ends P Q (run fuel chunk s)

  Ok-push :
      (fuel x : ℕ) (xs : Bytes) (s : S) (q : Parser)
      → P s
      → length (parser_of s).buf + 2 * length (x ∷ xs) < suc fuel
      → parser_pop (parser_of s) ≡ (need_more, q)
      → Ok fuel
      → Ends P Q (run (suc fuel) (x ∷ xs) s)
  Ok-push fuel x xs s q h k e later =
      let c : Bytes = x ∷ xs in
      let r = parser_push (parser_of s) c in
      let (step, some_taken) =
        pump_push parser_of set_parser dispatch stops fuel c s q e (omega arith) in
      let sizes = push_sizes (parser_of s) c in
      let same = keeps.parser_set r.1 s in
      let shorter : length r.1.buf + 2 * length (drop r.0 c) < fuel =
        omega (arith, sizes, some_taken, length-drop r.0 c) in
      rw step (
        later (drop r.0 c) (set_parser r.1 s)
          (keeps.on_parser r.1 s h (omega (arith, sizes, keeps.bounded s h))) (rw same shorter))

  Ok-frame :
      (fuel : ℕ) (c : Bytes) (s : S) (f : Frame) (q : Parser)
      → P s
      → length (parser_of s).buf + 2 * length c < suc fuel
      → parser_pop (parser_of s) ≡ (got_frame f, q)
      → Ok fuel
      → Ends P Q (run (suc fuel) c s)
  Ok-frame fuel c s f q h k e later =
      let smaller = buf_shorter (parser_of s) f q e in
      let next = dispatch f (set_parser q s) in
      let same = ap (λ (p : Parser). length p.buf) (keeps.parser_set q s) in
      let good : P (set_parser q s) =
        keeps.on_parser q s h (omega (arith, smaller, keeps.bounded s h)) in
      rw (pump_frame parser_of set_parser dispatch stops fuel c s f q e)
        (elim (Bool-cases (stops next)) [
          | inl e' ↦ rw e' (keeps.at_stop f _ good e')
          | inr e' ↦ rw e' (
              later c next (keeps.goes_on f _ good e')
                (omega (arith, smaller, same, keeps.no_longer f (set_parser q s))))
        ])

  Ok-on :
      (fuel : ℕ) (c : Bytes) (s : S) (r : PopResult × Parser)
      → parser_pop (parser_of s) ≡ r
      → P s
      → length (parser_of s).buf + 2 * length c < suc fuel
      → Ok fuel
      → Ends P Q (run (suc fuel) c s)
  Ok-on fuel [] s (need_more, q) e h k later =
      rw (pump_done parser_of set_parser dispatch stops fuel s q e) h
  Ok-on fuel (x ∷ xs) s (need_more, q) e h k later = Ok-push fuel x xs s q h k e later
  Ok-on fuel c s (got_frame f, q) e h k later = Ok-frame fuel c s f q h k e later
  Ok-on fuel c s (pop_error, q) e h k later =
      rw
        (pump_error parser_of set_parser dispatch stops fuel c s
          (ap (λ (r : PopResult × Parser). r.0) e))
        h

  pub pump_rule : (fuel : ℕ) → Ok fuel
  pump_rule zero c s h k = absurd (omega arith)
  pump_rule (suc fuel) c s h k = Ok-on fuel c s (parser_pop (parser_of s)) refl h k (pump_rule fuel)

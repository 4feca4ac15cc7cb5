-- ===== src/Loraham/Framing/Reads.antt =====
-- The read loop over one read, with a handler that keeps every frame.
use meshcom_loraham_bridge.Prelude.{
  ℕ, zero, suc, ◌+◌, ◌*◌, ◌≤◌, ◌<◌, false, List, [], ◌∷◌, ◌++◌, length, drop, length-drop,
  take-append-drop, Bytes, ◌≡◌, refl, sym, ap, ◌∙◌, arith, append_assoc, append-nil,
}
use meshcom_loraham_bridge.Loraham.Framing.{
  Parser, Frame, PopResult, need_more, got_frame, pop_error, parser_pop, parser_push, rx_frame_max,
}
use meshcom_loraham_bridge.Loraham.Framing.Parse.{push_takes, push_sizes, buf_shorter}
use meshcom_loraham_bridge.Loraham.Framing.Pump.{
  Pumped, drained, ended, broken, stuck, pump, pump_error, pump_frame, pump_done, pump_push,
}
use meshcom_loraham_bridge.Loraham.Framing.Stream.{
  of_bytes, Streams, stop, fail, frame, Tail, partial, bad, pop-append_got, pop-append_error,
}

-- The loop with a handler that keeps every frame.
pub record Collected : Type 0 where
  pub parser : Parser
  pub frames : List Frame

abbrev collect : Frame → Collected → Collected
collect f s = record s { frames = s.frames ++ f ∷ [] }

pub collect_pump : ℕ → Bytes → Collected → Pumped Collected
collect_pump = pump (λ s. s.parser) (λ p s. record s { parser = p }) collect (λ _. false)

push_split :
    (b c : Bytes)
    → b ++ c ≡ (parser_push (of_bytes b) c).1.buf ++ drop (parser_push (of_bytes b) c).0 c
push_split b c =
    let r = parser_push (of_bytes b) c in
    rw ((push_takes (of_bytes b) c).1, append_assoc, take-append-drop r.0 c)

-- What a run of the loop shows of a stream: its frames behind those at hand, and its tail.
abbrev pub Shows : Pumped Collected → List Frame → Tail → List Frame → Type 0
Shows (drained s) fs (partial r) gs =
    (s.frames ≡ gs ++ fs) × (s.parser.buf ≡ r) × (length r ≤ rx_frame_max)
Shows (broken s) fs bad gs = s.frames ≡ gs ++ fs
Shows _ fs t gs = ⊥

pub record Reads (b : Bytes) (gs : List Frame) (out : Pumped Collected) : Type 0 where
  pub fs : List Frame
  pub t : Tail
  pub streams : Streams b fs t
  pub shows : Shows out fs t gs

abbrev pub holding : Bytes → List Frame → Collected
holding b gs = record { parser = of_bytes b; frames = gs }

-- The rounds of the loop with this handler.
collect_error :
    (fuel : ℕ) (c b : Bytes) (gs : List Frame)
    → (parser_pop (of_bytes b)).0 ≡ pop_error
    → collect_pump (suc fuel) c (holding b gs) ≡ broken (holding b gs)
unfolding collect_pump
collect_error fuel c b gs e = pump_error _ _ _ _ fuel c (holding b gs) e

collect_done :
    (fuel : ℕ) (b : Bytes) (gs : List Frame) (q : Parser)
    → parser_pop (of_bytes b) ≡ (need_more, q)
    → collect_pump (suc fuel) [] (holding b gs) ≡ drained (holding b gs)
unfolding collect_pump
collect_done fuel b gs q e = pump_done _ _ _ _ fuel (holding b gs) q e

collect_frame :
    (fuel : ℕ) (c b : Bytes) (gs : List Frame) (f : Frame) (q : Parser)
    → parser_pop (of_bytes b) ≡ (got_frame f, q)
    → collect_pump (suc fuel) c (holding b gs) ≡ collect_pump fuel c (holding q.buf (gs ++ f ∷ []))
unfolding collect_pump
collect_frame fuel c b gs f q e = pump_frame _ _ _ _ fuel c (holding b gs) f q e

collect_push :
    (fuel x : ℕ) (xs b : Bytes) (gs : List Frame) (q : Parser)
    → parser_pop (of_bytes b) ≡ (need_more, q)
    → let r = parser_push (of_bytes b) (x ∷ xs) in
      (collect_pump (suc fuel) (x ∷ xs) (holding b gs)
        ≡ collect_pump fuel (drop r.0 (x ∷ xs)) (holding r.1.buf gs))
      × (0 < r.0)
unfolding collect_pump
collect_push fuel x xs b gs q e = pump_push _ _ _ _ fuel (x ∷ xs) (holding b gs) q e (omega arith)

abbrev Later : ℕ → Type 0
Later fuel =
    (c d : Bytes) (hs : List Frame)
    → length d ≤ rx_frame_max
    → length d + 2 * length c < fuel
    → Reads (d ++ c) hs (collect_pump fuel c (holding d hs))

Shows-frame :
    (out : Pumped Collected) (f : Frame) (fs gs : List Frame) (t : Tail)
    → Shows out fs t (gs ++ f ∷ [])
    → Shows out (f ∷ fs) t gs
Shows-frame (drained s) f fs gs (partial r) h = (h.0 ∙ append_assoc gs (f ∷ []) fs, h.1, h.2)
Shows-frame (drained s) f fs gs bad h = absurd h
Shows-frame (broken s) f fs gs bad h = h ∙ append_assoc gs (f ∷ []) fs
Shows-frame (broken s) f fs gs (partial r) h = absurd h
Shows-frame (ended s) f fs gs t h = absurd h
Shows-frame stuck f fs gs t h = absurd h

module _ (fuel : ℕ) (b : Bytes) (gs : List Frame) where
  Reads-error :
      (c : Bytes)
      → (parser_pop (of_bytes b)).0 ≡ pop_error
      → Reads (b ++ c) gs (collect_pump (suc fuel) c (holding b gs))
  Reads-error c e = rw (collect_error fuel c b gs e) (record {
    fs = [];
    t = bad;
    streams = fail (pop-append_error b c e);
    shows = sym (append-nil gs);
  })

  Reads-done :
      (q : Parser)
      → length b ≤ rx_frame_max
      → parser_pop (of_bytes b) ≡ (need_more, q)
      → Reads (b ++ []) gs (collect_pump (suc fuel) [] (holding b gs))
  Reads-done q h e =
      rw (append-nil b, collect_done fuel b gs q e)
        (record {
          fs = [];
          t = partial b;
          streams = stop q e;
          shows = (sym (append-nil gs), refl, h);
        })

  Reads-frame :
      (c : Bytes) (f : Frame) (q : Parser)
      → parser_pop (of_bytes b) ≡ (got_frame f, q)
      → Reads (q.buf ++ c) (gs ++ f ∷ []) (collect_pump fuel c (holding q.buf (gs ++ f ∷ [])))
      → Reads (b ++ c) gs (collect_pump (suc fuel) c (holding b gs))
  Reads-frame c f q e r = rw (collect_frame fuel c b gs f q e) (record {
    fs = f ∷ r.fs;
    t = r.t;
    streams = frame f _ (pop-append_got b c f q e) r.streams;
    shows = Shows-frame _ f r.fs gs r.t r.shows;
  })

  Reads-push :
      (x : ℕ) (xs : Bytes) (q : Parser)
      → length b ≤ rx_frame_max
      → parser_pop (of_bytes b) ≡ (need_more, q)
      → Later fuel
      → length b + 2 * length (x ∷ xs) < suc fuel
      → Reads (b ++ x ∷ xs) gs (collect_pump (suc fuel) (x ∷ xs) (holding b gs))
  Reads-push x xs q h e later k =
      let c : Bytes = x ∷ xs in
      let r = parser_push (of_bytes b) c in
      rw (push_split b c, (collect_push fuel x xs b gs q e).0)
        (later (drop r.0 c) r.1.buf gs (omega (arith, push_sizes (of_bytes b) c)) (
          omega (
            arith,
            push_sizes (of_bytes b) c,
            length-drop r.0 c,
            (collect_push fuel x xs b gs q e).1,
          )))

pub collect_pump_lem : (fuel : ℕ) → Later fuel
collect_pump_lem zero c b gs h k = absurd (omega arith)
collect_pump_lem (suc fuel) c b gs h k =
    go (parser_pop (of_bytes b)) refl c k (collect_pump_lem fuel)
  where
    go :
        (r : PopResult × Parser)
        → parser_pop (of_bytes b) ≡ r
        → (c : Bytes) → length b + 2 * length c < suc fuel
        → Later fuel
        → Reads (b ++ c) gs (collect_pump (suc fuel) c (holding b gs))
    go (need_more, q) e [] k' later = Reads-done fuel b gs q h e
    go (need_more, q) e (x ∷ xs) k' later = Reads-push fuel b gs x xs q h e later k'
    go (got_frame f, q) e c k' later = Reads-frame fuel b gs c f q e (
        later c q.buf (gs ++ f ∷ []) (omega (arith, buf_shorter (of_bytes b) f q e))
          (omega (arith, buf_shorter (of_bytes b) f q e)))
    go (pop_error, q) e c k' later =
        Reads-error fuel b gs c (ap (λ (r : PopResult × Parser). r.0) e)

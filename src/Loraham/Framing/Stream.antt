-- ===== src/Loraham/Framing/Stream.antt =====
-- How the framed DATA stream splits into frames, as a relation.
use meshcom_loraham_bridge.Prelude.{
  ℕ, ◌+◌, ◌<◌, List, [], ◌∷◌, ◌++◌, length, drop, length-append, length-drop, take-append_le,
  drop-append_le, get_or-append, Bytes, ◌≡◌, refl, sym, subst, ◌∙◌, arith,
}
use meshcom_loraham_bridge.Loraham.Framing.{
  Parser, Frame, need_more, got_frame, pop_error, parser_pop, framed_header_len, get16le,
}
use meshcom_loraham_bridge.Loraham.Framing.Parse.{pop_got_frame}

abbrev pub of_bytes : Bytes → Parser
of_bytes b = record { buf = b }

get16le-append : (b c : Bytes) (i : ℕ) → i + 1 < length b → get16le (b ++ c) i ≡ get16le b i
get16le-append b c i h = rw (get_or-append b c i 0 (omega arith), get_or-append b c (i + 1) 0 h)

-- More input does not change the frame that is taken.
pub pop-append_got :
    (b c : Bytes) (f : Frame) (q : Parser)
    → parser_pop (of_bytes b) ≡ (got_frame f, q)
    → parser_pop (of_bytes (b ++ c)) ≡ (got_frame f, of_bytes (q.buf ++ c))
unfolding parser_pop
pop-append_got b c f q e = ground (
  arith,
  pop_got_frame (of_bytes b) q f e,
  length-append b c,
  get16le-append b c 1,
  get_or-append b c 0 0,
  length-drop framed_header_len b,
  drop-append_le framed_header_len b c,
  drop-append_le (framed_header_len + f.len) b c,
  take-append_le f.len (drop framed_header_len b) c,
)

-- Nor does it mend a broken stream.
pub pop-append_error :
    (b c : Bytes)
    → (parser_pop (of_bytes b)).0 ≡ pop_error
    → (parser_pop (of_bytes (b ++ c))).0 ≡ pop_error
unfolding parser_pop
pop-append_error b c e =
    ground (arith, length-append b c, get16le-append b c 1, get_or-append b c 0 0)

-- `Streams b fs t`: the bytes `b` are the frames `fs` and then end as `t` says.
pub data Tail : Type 0 where
  partial : Bytes → Tail
  bad : Tail

pub data Streams : Bytes → List Frame → Tail → Type 0 where
  stop :
      {b : Bytes} (q : Parser) → parser_pop (of_bytes b) ≡ (need_more, q) → Streams b [] (partial b)
  fail : {b : Bytes} → (parser_pop (of_bytes b)).0 ≡ pop_error → Streams b [] bad
  frame :
      {b : Bytes} {fs : List Frame} {t : Tail} (f : Frame) (q : Parser)
      → parser_pop (of_bytes b) ≡ (got_frame f, q)
      → Streams q.buf fs t
      → Streams b (f ∷ fs) t

-- A stream splits in one way only.
pub Streams-unique :
    {b : Bytes} {fs gs : List Frame} {t u : Tail}
    → Streams b fs t
    → Streams b gs u
    → (fs ≡ gs) × (t ≡ u)
Streams-unique (stop q e) (stop q' e') = (refl, refl)
Streams-unique (stop q e) (fail e') = cc
Streams-unique (stop q e) (frame f q' e' s) = cc
Streams-unique (fail e) (stop q' e') = cc
Streams-unique (fail e) (fail e') = (refl, refl)
Streams-unique (fail e) (frame f q' e' s) = cc
Streams-unique (frame f q e s) (stop q' e') = cc
Streams-unique (frame f q e s) (fail e') = cc
Streams-unique (frame {fs} {t} f q e s) (frame {fs = gs} {t = u} f' q' e' s') =
    let rest : Streams q.buf gs u =
      subst (λ (p : Parser). Streams p.buf gs u) (cc (sym e' ∙ e)) s' in
    let (same, tails) = Streams-unique s rest in (cc (sym e ∙ e', same), tails)

pub Streams-append_bad :
    {b : Bytes} {fs : List Frame} (c : Bytes) → Streams b fs bad → Streams (b ++ c) fs bad
Streams-append_bad {b} c (fail e) = fail (pop-append_error b c e)
Streams-append_bad {b} c (frame f q e s) =
    frame f _ (pop-append_got b c f q e) (Streams-append_bad c s)

-- Bytes that follow join the unfinished tail.
pub Streams-append :
    {b r : Bytes} {fs gs : List Frame} {t : Tail} (c : Bytes)
    → Streams b fs (partial r)
    → Streams (r ++ c) gs t
    → Streams (b ++ c) (fs ++ gs) t
Streams-append c (stop q e) more = more
Streams-append {b} c (frame f q e s) more =
    frame f _ (pop-append_got b c f q e) (Streams-append c s more)

-- ===== src/Loraham/Framing/Chunking.antt =====
-- The read loop over all the reads of a connection.
use meshcom_loraham_bridge.Prelude.{
  flatten, suc, ◌+◌, ◌*◌, ◌≤◌, Option, some, none, List, [], ◌∷◌, ◌++◌, length, Bytes, ◌≡◌, refl,
  sym, ap, subst, ◌∙◌, arith, append_assoc, append-nil,
}
use meshcom_loraham_bridge.Loraham.Framing.{Frame, parser_pop, rx_frame_max}
use meshcom_loraham_bridge.Loraham.Framing.Pump.{Pumped, drained, ended, broken, stuck}
use meshcom_loraham_bridge.Loraham.Framing.Stream.{
  of_bytes, Streams, stop, frame, Tail, partial, bad, Streams-unique, Streams-append,
  Streams-append_bad,
}
use meshcom_loraham_bridge.Loraham.Framing.Reads.{
  Collected, Shows, collect_pump, collect_pump_lem, holding,
}

-- The reads of a connection, one after the other. A broken stream ends it; `none` is a loop that
-- ran out of fuel.
pub collect_all : List Bytes → Collected → Option (List Frame)
collect_all [] s = some s.frames
collect_all (c ∷ cs) s = elim (collect_pump (suc (length s.parser.buf + 2 * length c)) c s) [
  | drained s' ↦ collect_all cs s'
  | broken s' ↦ some s'.frames
  | ended s' ↦ none
  | stuck ↦ none
]

tail_stops : {b r : Bytes} {fs : List Frame} → Streams b fs (partial r) → Streams r [] (partial r)
tail_stops (stop q e) = stop q e
tail_stops (frame f q e s) = tail_stops s

record ReadsAll (b : Bytes) (gs : List Frame) (cs : List Bytes) : Type 0 where
  pub all_fs : List Frame
  pub all_t : Tail
  pub all_streams : Streams (b ++ flatten cs) all_fs all_t
  pub all_frames : collect_all cs (holding b gs) ≡ some (gs ++ all_fs)

abbrev LaterAll : List Bytes → Type 0
LaterAll cs =
    (b : Bytes) (gs : List Frame)
    → length b ≤ rx_frame_max
    → Streams b [] (partial b)
    → ReadsAll b gs cs

ReadsAll-cons :
    (c : Bytes) (cs : List Bytes) (b : Bytes) (gs : List Frame) (out : Pumped Collected)
    → collect_pump (suc (length b + 2 * length c)) c (holding b gs) ≡ out
    → (fs : List Frame) (t : Tail) → Streams (b ++ c) fs t
    → Shows out fs t gs
    → LaterAll cs
    → ReadsAll b gs (c ∷ cs)
unfolding collect_all
ReadsAll-cons c cs b gs (drained s) e fs (partial r) st (hf, hb, hl) later =
    let l = later r (gs ++ fs) hl (tail_stops st) in
    let same : s ≡ holding r (gs ++ fs) =
      λ i. record { parser = record { buf = hb i }; frames = hf i } in
    record {
      all_fs = fs ++ l.all_fs;
      all_t = l.all_t;
      all_streams =
          subst (λ (x : Bytes). Streams x (fs ++ l.all_fs) l.all_t) (append_assoc b c (flatten cs))
            (Streams-append (flatten cs) st l.all_streams);
      all_frames =
          rw (e, collect_all) (rw same (l.all_frames ∙ ap some (append_assoc gs fs l.all_fs)));
    }
ReadsAll-cons c cs b gs (drained s) e fs bad st h later = absurd h
ReadsAll-cons c cs b gs (broken s) e fs bad st h later = record {
  all_fs = fs;
  all_t = bad;
  all_streams =
      subst (λ (x : Bytes). Streams x fs bad) (append_assoc b c (flatten cs))
        (Streams-append_bad (flatten cs) st);
  all_frames = rw (e, collect_all) (ap some h);
}
ReadsAll-cons c cs b gs (broken s) e fs (partial r) st h later = absurd h
ReadsAll-cons c cs b gs (ended s) e fs t st h later = absurd h
ReadsAll-cons c cs b gs stuck e fs t st h later = absurd h

collect_all_lem : (cs : List Bytes) → LaterAll cs
collect_all_lem [] b gs h s = record {
  all_fs = [];
  all_t = partial b;
  all_streams = rw (append-nil b) s;
  all_frames = unfold collect_all in rw (append-nil gs);
}
collect_all_lem (c ∷ cs) b gs h s =
    let r = collect_pump_lem (suc (length b + 2 * length c)) c b gs h (omega arith) in
    ReadsAll-cons c cs b gs _ refl r.fs r.t r.streams r.shows (collect_all_lem cs)

empty_stops : Streams [] [] (partial [])
unfolding parser_pop
empty_stops = stop (of_bytes []) refl

-- However the bytes of a connection are cut into reads, the same frames come out, in the same
-- order, and the loop ends.
pub collect_all_chunking :
    (cs ds : List Bytes)
    → flatten cs ≡ flatten ds
    → (fs : List Frame) × (collect_all cs (holding [] []) ≡ some fs)
      × (collect_all ds (holding [] []) ≡ some fs)
collect_all_chunking cs ds e =
    let x = collect_all_lem cs [] [] (omega arith) empty_stops in
    let y = collect_all_lem ds [] [] (omega arith) empty_stops in
    let other = subst (λ (b : Bytes). Streams b y.all_fs y.all_t) (sym e) y.all_streams in
    let same = Streams-unique x.all_streams other in
    (x.all_fs, x.all_frames, rw same.0 y.all_frames)

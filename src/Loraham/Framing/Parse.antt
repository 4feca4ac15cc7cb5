-- ===== src/Loraham/Framing/Parse.antt =====
-- What LorahamFraming's parser_pop and parser_push do to the buffer.
use meshcom_loraham_bridge.Prelude.{
  ◌+◌, ◌-◌, ◌≤◌, ◌<◌, ◌++◌, length, get_or, take, drop, length-append, length-take, length-drop,
  Bytes, ◌≡◌, arith, min,
}
use meshcom_loraham_bridge.Loraham.Framing.{
  Parser, Frame, need_more, got_frame, parser_pop, parser_push, rx_frame_max, framed_header_len,
  get16le,
}

-- A partial frame leaves room in the buffer and the buffer as it was.
pub pop_need_more :
    (p q : Parser) → parser_pop p ≡ (need_more, q) → (q ≡ p) × (length p.buf < rx_frame_max)
unfolding parser_pop
pop_need_more p q e = ground arith

-- A frame takes its header and its payload off the front.
pub pop_got_frame :
    (p q : Parser) (f : Frame)
    → parser_pop p ≡ (got_frame f, q)
    → (f.len ≡ get16le p.buf 1)
      × (f.type ≡ get_or p.buf 0 0)
      × (f.payload ≡ take f.len (drop framed_header_len p.buf))
      × (q.buf ≡ drop (framed_header_len + f.len) p.buf)
      × (framed_header_len + f.len ≤ length p.buf)
unfolding parser_pop
pop_got_frame p q f e = ground arith

pub push_takes :
    (p : Parser) (bytes : Bytes)
    → ((parser_push p bytes).0 ≤ length bytes)
      × ((parser_push p bytes).1.buf ≡ p.buf ++ take (parser_push p bytes).0 bytes)
      × ((parser_push p bytes).0 ≡ min (length bytes) (rx_frame_max - length p.buf))
unfolding parser_push
push_takes p bytes = ground arith

pub push_sizes :
    (p : Parser) (bytes : Bytes)
    → (length (parser_push p bytes).1.buf ≡ length p.buf + (parser_push p bytes).0)
      × ((parser_push p bytes).0 ≤ length bytes)
      × ((parser_push p bytes).0 ≤ rx_frame_max - length p.buf)
unfolding parser_push
push_sizes p bytes = ground (
  arith,
  push_takes p bytes,
  length-append p.buf (take (parser_push p bytes).0 bytes),
  length-take (parser_push p bytes).0 bytes,
)

pub buf_shorter :
    (p : Parser) (f : Frame) (q : Parser)
    → parser_pop p ≡ (got_frame f, q)
    → length q.buf + framed_header_len ≤ length p.buf
buf_shorter p f q e =
    ground (arith, pop_got_frame p q f e, length-drop (framed_header_len + f.len) p.buf)

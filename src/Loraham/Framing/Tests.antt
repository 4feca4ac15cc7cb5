-- ===== src/Loraham/Framing/Tests.antt =====
-- Concrete frames, and the theorems at them.
use meshcom_loraham_bridge.Prelude.{
  ◌≡◌, ◌++◌, refl, some, true, false, List, [], ◌∷◌, codes, Bytes, arith,
}
use meshcom_loraham_bridge.Loraham.Framing.{
  Frame, encode_rx_packet, encode_tx_packet, encode_tx_result, parser_pop, got_frame, decode_rx,
  decode_tx_result, status_line_radio_ready,
}
use meshcom_loraham_bridge.Loraham.Framing.Codec.{
  decode_rx-encode, decode_tx_result-encode, TxStream, tx_stream_lem,
}
use meshcom_loraham_bridge.Loraham.Framing.Reads.{holding}
use meshcom_loraham_bridge.Loraham.Framing.Chunking.{collect_all, collect_all_chunking}

status_ready : status_line_radio_ready (codes "STATUS RADIO=READY CAD=0") ≡ true
unfolding status_line_radio_ready
status_ready = refl

status_not_ready : status_line_radio_ready (codes "STATUS RADIO=READYX") ≡ false
unfolding status_line_radio_ready
status_not_ready = refl

-- An RX_PACKET of the bytes 7 and 8.
abbrev rx_bytes : Bytes
rx_bytes = 1 ∷ 6 ∷ 0 ∷ 10 ∷ 0 ∷ 20 ∷ 0 ∷ 7 ∷ 8 ∷ []

abbrev result_bytes : Bytes
result_bytes = 4 ∷ 4 ∷ 0 ∷ 0 ∷ 0 ∷ 5 ∷ 0 ∷ []

rx_encoded : encode_rx_packet 100 10 20 (7 ∷ 8 ∷ []) ≡ some rx_bytes
unfolding encode_rx_packet
rx_encoded = refl

result_encoded : encode_tx_result 100 0 0 5 ≡ some result_bytes
unfolding encode_tx_result
result_encoded = refl

decode_rx-encode_example :
    (f : Frame) × (parser_pop (record { buf = rx_bytes ++ result_bytes })
      ≡ (got_frame f, record { buf = result_bytes }))
    × (decode_rx f ≡ some (10, 20, 7 ∷ 8 ∷ []))
decode_rx-encode_example =
    decode_rx-encode 100 10 20 (7 ∷ 8 ∷ []) result_bytes rx_bytes (omega arith) (omega arith)
      rx_encoded

decode_tx_result-encode_example :
    (f : Frame) × (parser_pop (record { buf = result_bytes ++ rx_bytes })
      ≡ (got_frame f, record { buf = rx_bytes }))
    × (decode_tx_result f ≡ some (0, 0, 5))
decode_tx_result-encode_example =
    decode_tx_result-encode 100 0 0 5 rx_bytes result_bytes (omega arith) result_encoded

-- Two packets.
abbrev two_packets : List Bytes
two_packets = (7 ∷ 8 ∷ []) ∷ (9 ∷ []) ∷ []

tx_stream_lem_example :
    (stream : Bytes) × TxStream 258 two_packets stream
    × ((rfs' : List Bytes) → TxStream 258 rfs' stream → rfs' ≡ two_packets)
tx_stream_lem_example = tx_stream_lem 258 two_packets (omega arith) (omega arith)

two_encoded : TxStream 258 two_packets (2 ∷ 2 ∷ 0 ∷ 7 ∷ 8 ∷ 2 ∷ 1 ∷ 0 ∷ 9 ∷ [])
unfolding encode_tx_packet
two_encoded = (_, 2 ∷ 1 ∷ 0 ∷ 9 ∷ [], refl, refl, (_, [], refl, refl, refl))

-- The two frames in one read, and cut within the header of the second.
abbrev whole_read : List Bytes
whole_read = (rx_bytes ++ result_bytes) ∷ []

abbrev cut_reads : List Bytes
cut_reads = (rx_bytes ++ 4 ∷ []) ∷ (4 ∷ 0 ∷ 0 ∷ []) ∷ (0 ∷ 5 ∷ 0 ∷ []) ∷ []

collect_all_chunking_example :
    (fs : List Frame) × (collect_all whole_read (holding [] []) ≡ some fs)
    × (collect_all cut_reads (holding [] []) ≡ some fs)
collect_all_chunking_example = collect_all_chunking whole_read cut_reads refl

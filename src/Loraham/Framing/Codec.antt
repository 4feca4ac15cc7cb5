-- ===== src/Loraham/Framing/Codec.antt =====
-- The encoders beside the parser and the decoders.
use meshcom_loraham_bridge.Prelude.{
  ℕ, ◌+◌, ◌*◌, ◌≤◌, ◌<◌, ◌∷◌, ◌++◌, some, none, length, length-append, take-append, drop-append,
  drop-add, take_all, ◌/◌, ◌%◌, Bytes, u16_mod, ◌≡◌, ◌⊎◌, arith, List, [], refl, sym, ◌∙◌, subst,
  ◌≢◌, inl, inr,
}
use meshcom_loraham_bridge.Loraham.Framing.{
  Frame, got_frame, parser_pop, encode_rx_packet, encode_tx_result, encode_tx_packet, decode_rx,
  decode_tx_result, framed_header_len, max_rf_payload, rx_payload_max, put16le, framed_rx_packet,
  framed_tx_packet, framed_tx_result,
}

-- A whole frame at the front of the buffer is taken off it.
pop_whole :
    (type lo hi : ℕ) (payload rest : Bytes)
    → (type ≡ framed_rx_packet) ⊎ (type ≡ framed_tx_result)
    → lo + 256 * hi ≡ length payload
    → length payload ≤ rx_payload_max
    → parser_pop (record { buf = type ∷ lo ∷ hi ∷ (payload ++ rest) }) ≡ (
      got_frame (record { type = type; len = length payload; payload = payload }),
      record { buf = rest },
    )
unfolding parser_pop
pop_whole type lo hi payload rest t e h = ground (
  arith,
  length-append payload rest,
  take-append payload rest,
  drop-append payload rest,
  drop-add framed_header_len (length payload) (type ∷ lo ∷ hi ∷ (payload ++ rest)),
)

-- An RX_PACKET that the daemon's encoder wrote comes out of the parser and the decoder as it went
-- in, whatever bytes follow it.
pub decode_rx-encode :
    (cap rssi snr : ℕ) (rf rest bytes : Bytes)
    → rssi < u16_mod
    → snr < u16_mod
    → encode_rx_packet cap rssi snr rf ≡ some bytes
    → (f : Frame) × (parser_pop (record { buf = bytes ++ rest })
        ≡ (got_frame f, record { buf = rest }))
      × (decode_rx f ≡ some (rssi, snr, rf))
unfolding encode_rx_packet decode_rx
decode_rx-encode cap rssi snr rf rest bytes hr hs e =
    let payload : Bytes = put16le rssi ++ put16le snr ++ rf in
    let n = length rf in
    (
      record { type = framed_rx_packet; len = length payload; payload = payload },
      ground (arith, pop_whole framed_rx_packet ((4 + n) % 256) ((4 + n) / 256 % 256) payload rest),
      ground (arith, take_all n rf),
    )

-- A TX_RESULT that the daemon's encoder wrote comes out of the parser and the decoder as it went in,
-- whatever bytes follow it.
pub decode_tx_result-encode :
    (cap status flags seq : ℕ) (rest bytes : Bytes)
    → seq < u16_mod
    → encode_tx_result cap status flags seq ≡ some bytes
    → (f : Frame) × (parser_pop (record { buf = bytes ++ rest })
        ≡ (got_frame f, record { buf = rest }))
      × (decode_tx_result f ≡ some (status, flags, seq))
unfolding encode_tx_result decode_tx_result
decode_tx_result-encode cap status flags seq rest bytes hs e =
    let payload : Bytes = status ∷ flags ∷ put16le seq in
    (
      record { type = framed_tx_result; len = 4; payload = payload },
      ground (arith, pop_whole framed_tx_result 4 0 payload rest),
      ground arith,
    )

-- A TX_PACKET is the header and the packet, and is refused only if it is too long for the frame or
-- for the buffer.
pub encode_tx_packet_lem :
    (cap : ℕ) (rf : Bytes)
    → (encode_tx_packet cap rf
          ≡ some (framed_tx_packet ∷ (length rf % 256) ∷ (length rf / 256 % 256) ∷ rf))
        × (length rf ≤ max_rf_payload)
        × (framed_header_len + length rf ≤ cap)
      ⊎ (encode_tx_packet cap rf ≡ none)
        × ((max_rf_payload < length rf) ⊎ (cap < framed_header_len + length rf))
unfolding encode_tx_packet
encode_tx_packet_lem cap rf = ground arith

-- What lies before a cut at the same place, and what behind it.
append_split : (xs ys a b : Bytes) → length xs ≡ length ys → xs ++ a ≡ ys ++ b → (xs ≡ ys) × (a ≡ b)
append_split [] [] a b e h = (refl, h)
append_split [] (y ∷ ys) a b e h = absurd (omega (arith, e))
append_split (x ∷ xs) [] a b e h = absurd (omega (arith, e))
append_split (x ∷ xs) (y ∷ ys) a b e h = ground (arith, append_split xs ys a b)

encode_tx_packet-append :
    (cap : ℕ) (rf rf' bytes bytes' a b : Bytes)
    → encode_tx_packet cap rf ≡ some bytes
    → encode_tx_packet cap rf' ≡ some bytes'
    → bytes ++ a ≡ bytes' ++ b
    → (rf ≡ rf') × (a ≡ b)
encode_tx_packet-append cap rf rf' bytes bytes' a b e e' h =
    ground
      (arith, encode_tx_packet_lem cap rf, encode_tx_packet_lem cap rf', append_split rf rf' a b)

-- The bytes of these packets, one encoded behind the other.
abbrev pub TxStream : ℕ → List Bytes → Bytes → Type 0
TxStream cap [] stream = stream ≡ []
TxStream cap (rf ∷ rfs) stream =
    (bytes : Bytes) × (later : Bytes) × (encode_tx_packet cap rf ≡ some bytes)
    × (stream ≡ bytes ++ later)
    × TxStream cap rfs later

TxStream-nonempty :
    (cap : ℕ) (rf bytes later : Bytes) → encode_tx_packet cap rf ≡ some bytes → [] ≢ bytes ++ later
TxStream-nonempty cap rf bytes later e = ground (arith, encode_tx_packet_lem cap rf)

TxStream-unique :
    (cap : ℕ) (rfs rfs' : List Bytes) (stream : Bytes)
    → TxStream cap rfs stream
    → TxStream cap rfs' stream
    → rfs ≡ rfs'
TxStream-unique cap [] [] stream h h' = refl
TxStream-unique cap [] (rf ∷ rfs) stream h (bytes, later, e, s, r) =
    absurd (TxStream-nonempty cap rf bytes later e (sym h ∙ s))
TxStream-unique cap (rf ∷ rfs) [] stream (bytes, later, e, s, r) h =
    absurd (TxStream-nonempty cap rf bytes later e (sym h ∙ s))
TxStream-unique cap (rf ∷ rfs) (rf' ∷ rfs') stream (bytes, later, e, s, r)
      (bytes', later', e', s', r') =
    let (same, rest) =
      encode_tx_packet-append cap rf rf' bytes bytes' later later' e e' (sym s ∙ s') in
    let ih = TxStream-unique cap rfs rfs' later r (subst (TxStream cap rfs') (sym rest) r') in cc

abbrev pub AllFit : List Bytes → Type 0
AllFit [] = Unit
AllFit (rf ∷ rfs) = (length rf ≤ max_rf_payload) × AllFit rfs

TxStream-exists :
    (cap : ℕ) (rfs : List Bytes)
    → framed_header_len + max_rf_payload ≤ cap
    → AllFit rfs
    → (stream : Bytes) × TxStream cap rfs stream
TxStream-exists cap [] h f = ([], refl)
TxStream-exists cap (rf ∷ rfs) h (short, f) =
    let (later, r) = TxStream-exists cap rfs h f in
    elim (encode_tx_packet_lem cap rf) [
      | inl (e, _, _) ↦ (_, (_, later, e, refl, r))
      | inr (_, long) ↦ absurd (omega (arith, long, short, h))
    ]

-- If each packet has at most 255 bytes and the buffer holds the longest frame, the packets can all be
-- encoded, one behind the other, and the bytes tell what they were: no other sequence of packets is
-- encoded into the same bytes.
pub tx_stream_lem :
    (cap : ℕ) (rfs : List Bytes)
    → framed_header_len + max_rf_payload ≤ cap
    → AllFit rfs
    → (stream : Bytes) × TxStream cap rfs stream
      × ((rfs' : List Bytes) → TxStream cap rfs' stream → rfs' ≡ rfs)
tx_stream_lem cap rfs h f =
    let (stream, r) = TxStream-exists cap rfs h f in
    (stream, r, λ rfs' r'. TxStream-unique cap rfs' rfs stream r' r)

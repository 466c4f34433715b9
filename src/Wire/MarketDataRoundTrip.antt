-- ===== src/Wire/MarketDataRoundTrip.antt =====
-- The round trip of the market-data feed: decode_event on what encode_event writes.
use cpp_projects.Base.{
  ℕ, ◌+◌, ◌≡◌, refl, ap, ◌∙◌, List, [], ◌++◌, append_assoc, arith, length, length-append,
}
use cpp_projects.Base.Result.{ok}
use cpp_projects.Wire.Bytes.{put_u8, put_u16, put_u32, put_u64, put_i64}
use cpp_projects.Wire.Frame.{IsFrame, decode-IsFrame}
use cpp_projects.Wire.MarketData.{
  Header, Event, encode_event, decode_header, event_format, decode_event, add_order, add_order_type,
  put_add_order, cancel_order, cancel_order_type, put_cancel_order, modify_order, modify_order_type,
  put_modify_order, trade, trade_type, put_trade, clear_book, clear_book_type, put_clear_book,
}
use cpp_projects.Wire.MarketDataPayloads.{
  FitsEvent, header_of, header_bytes, header_bytes-IsFrame, add_order-decodes, cancel_order-decodes,
  modify_order-decodes, trade-decodes, clear_book-decodes,
}

-- The two parts of an encoded event.
pub event-IsFrame :
    (m : Event)
    → FitsEvent m
    → (header : List ℕ) × ((payload : List ℕ) × ((h : Header) × (encode_event m []
            ≡ header ++ payload)
          × IsFrame event_format header payload h m))
unfolding encode_event put_u8 put_u16 put_u32 put_u64 put_i64
event-IsFrame (add_order m) w = (
  header_bytes add_order_type m.sequence_number m.timestamp_ns,
  (
    put_add_order [] m,
    (
      header_of add_order_type m.sequence_number m.timestamp_ns,
      refl,
      header_bytes-IsFrame add_order_type m.sequence_number m.timestamp_ns _ w.sequence_number_fits
          w.timestamp_ns_fits refl (add_order-decodes m w),
    ),
  ),
)
event-IsFrame (cancel_order m) w = (
  header_bytes cancel_order_type m.sequence_number m.timestamp_ns,
  (
    put_cancel_order [] m,
    (
      header_of cancel_order_type m.sequence_number m.timestamp_ns,
      refl,
      header_bytes-IsFrame cancel_order_type m.sequence_number m.timestamp_ns _
          w.sequence_number_fits w.timestamp_ns_fits refl (cancel_order-decodes m w),
    ),
  ),
)
event-IsFrame (modify_order m) w = (
  header_bytes modify_order_type m.sequence_number m.timestamp_ns,
  (
    put_modify_order [] m,
    (
      header_of modify_order_type m.sequence_number m.timestamp_ns,
      refl,
      header_bytes-IsFrame modify_order_type m.sequence_number m.timestamp_ns _
          w.sequence_number_fits w.timestamp_ns_fits refl (modify_order-decodes m w),
    ),
  ),
)
event-IsFrame (trade m) w = (
  header_bytes trade_type m.sequence_number m.timestamp_ns,
  (
    put_trade [] m,
    (
      header_of trade_type m.sequence_number m.timestamp_ns,
      refl,
      header_bytes-IsFrame trade_type m.sequence_number m.timestamp_ns _ w.sequence_number_fits
          w.timestamp_ns_fits refl (trade-decodes m w),
    ),
  ),
)
event-IsFrame (clear_book m) w = (
  header_bytes clear_book_type m.sequence_number m.timestamp_ns,
  (
    put_clear_book [] m,
    (
      header_of clear_book_type m.sequence_number m.timestamp_ns,
      refl,
      header_bytes-IsFrame clear_book_type m.sequence_number m.timestamp_ns _ w.sequence_number_fits
          w.timestamp_ns_fits refl (clear_book-decodes m w),
    ),
  ),
)

-- A message whose values are in the ranges of their C++ types is what decode_event gives on the
-- bytes that encode_event appends for it, whatever bytes follow them.
pub decode_event-encode_event :
    (m : Event) (rest : List ℕ) → FitsEvent m → decode_event (encode_event m [] ++ rest) ≡ ok m
unfolding decode_event
decode_event-encode_event m rest w =
    let (header, (payload, (h, bytes, frame))) = event-IsFrame m w in
    ap (λ b. decode_event (b ++ rest)) bytes
    ∙ ap decode_event (append_assoc header payload rest)
    ∙ decode-IsFrame event_format header payload rest frame

-- The header of an encoded event, with the length of the whole.
pub frame_of :
    (m : Event)
    → FitsEvent m
    → (h : Header) × ((rest : List ℕ) → decode_header (encode_event m [] ++ rest) ≡ ok h)
      × (20 + h.payload_size ≡ length (encode_event m []))
frame_of m w =
    let (header, (payload, (h, bytes, frame))) = event-IsFrame m w in
    (
      h,
      (λ rest.
          ap (λ b. decode_header (b ++ rest)) bytes
          ∙ ap decode_header (append_assoc header payload rest)
          ∙ frame.header_decodes (payload ++ rest)),
      omega (
        arith,
        ap length bytes,
        length-append header payload,
        frame.header_length,
        frame.payload_length,
      ),
    )

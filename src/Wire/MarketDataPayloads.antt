-- ===== src/Wire/MarketDataPayloads.antt =====
-- mdh/src/protocol/encoder.cpp, decoder.cpp: the headers and the payloads of the market-data feed, decoded.
use cpp_projects.Base.{ℕ, ◌^◌, ◌<◌, ◌≡◌, refl, ap, ◌∙◌, some, List, [], ◌++◌, arith, length}
use cpp_projects.Base.Word.{IsI64}
use cpp_projects.Base.Result.{ok}
use cpp_projects.Wire.Bytes.{
  put_u8, put_u16, put_u32, put_u64, put_i64, result_or, get_u8-bytes, get_u16-bytes, get_u32-bytes,
  get_u64-bytes, get_i64-bytes, >>=-some,
}
use cpp_projects.Wire.Codes.{side_code, side_of-side_code, side_code-lt}
use cpp_projects.Wire.Frame.{IsFrame, if-long}
use cpp_projects.Wire.MarketData.{
  MessageType, Header, Event, type_code, payload_size_for, put_header, decode_header,
  checked_header, header_fields, decode_payload, event_format, truncated_header, truncated_payload,
  AddOrder, add_order, add_order_type, put_add_order, checked_add_order, CancelOrder, cancel_order,
  cancel_order_type, put_cancel_order, ModifyOrder, modify_order, modify_order_type,
  put_modify_order, Trade, trade, trade_type, put_trade, checked_trade, ClearBook, clear_book,
  clear_book_type, put_clear_book,
}

-- The values of a message are in the ranges of their C++ types.
pub record FitsAddOrder (m : AddOrder) : Type 0 where
  pub sequence_number_fits : m.sequence_number < 2 ^ 64
  pub timestamp_ns_fits : m.timestamp_ns < 2 ^ 64
  pub order_id_fits : m.order_id < 2 ^ 64
  pub instrument_id_fits : m.instrument_id < 2 ^ 32
  pub price_fits : IsI64 m.price
  pub quantity_fits : m.quantity < 2 ^ 64

pub record FitsCancelOrder (m : CancelOrder) : Type 0 where
  pub sequence_number_fits : m.sequence_number < 2 ^ 64
  pub timestamp_ns_fits : m.timestamp_ns < 2 ^ 64
  pub order_id_fits : m.order_id < 2 ^ 64
  pub instrument_id_fits : m.instrument_id < 2 ^ 32

pub record FitsModifyOrder (m : ModifyOrder) : Type 0 where
  pub sequence_number_fits : m.sequence_number < 2 ^ 64
  pub timestamp_ns_fits : m.timestamp_ns < 2 ^ 64
  pub order_id_fits : m.order_id < 2 ^ 64
  pub instrument_id_fits : m.instrument_id < 2 ^ 32
  pub new_price_fits : IsI64 m.new_price
  pub new_quantity_fits : m.new_quantity < 2 ^ 64

pub record FitsTrade (m : Trade) : Type 0 where
  pub sequence_number_fits : m.sequence_number < 2 ^ 64
  pub timestamp_ns_fits : m.timestamp_ns < 2 ^ 64
  pub instrument_id_fits : m.instrument_id < 2 ^ 32
  pub price_fits : IsI64 m.price
  pub quantity_fits : m.quantity < 2 ^ 64

pub record FitsClearBook (m : ClearBook) : Type 0 where
  pub sequence_number_fits : m.sequence_number < 2 ^ 64
  pub timestamp_ns_fits : m.timestamp_ns < 2 ^ 64
  pub instrument_id_fits : m.instrument_id < 2 ^ 32

abbrev pub FitsEvent : Event → Type 0
FitsEvent (add_order m) = FitsAddOrder m
FitsEvent (cancel_order m) = FitsCancelOrder m
FitsEvent (modify_order m) = FitsModifyOrder m
FitsEvent (trade m) = FitsTrade m
FitsEvent (clear_book m) = FitsClearBook m

pub type_code-lt : (type : MessageType) → type_code type < 2 ^ 8
type_code-lt add_order_type = omega arith
type_code-lt cancel_order_type = omega arith
type_code-lt modify_order_type = omega arith
type_code-lt trade_type = omega arith
type_code-lt clear_book_type = omega arith

pub payload_size_for-lt : (type : MessageType) → payload_size_for type < 2 ^ 16
payload_size_for-lt add_order_type = omega arith
payload_size_for-lt cancel_order_type = omega arith
payload_size_for-lt modify_order_type = omega arith
payload_size_for-lt trade_type = omega arith
payload_size_for-lt clear_book_type = omega arith

abbrev pub header_of : MessageType → ℕ → ℕ → Header
header_of type sequence_number timestamp_ns = record {
  message_type = type;
  payload_size = payload_size_for type;
  sequence_number = sequence_number;
  timestamp_ns = timestamp_ns;
}

abbrev pub header_bytes : MessageType → ℕ → ℕ → List ℕ
header_bytes type sequence_number timestamp_ns =
    put_header [] type sequence_number timestamp_ns (payload_size_for type)

pub checked_header-own :
    (type : MessageType) (sequence_number : ℕ) (timestamp_ns : ℕ)
    → checked_header (type_code type) 0 (payload_size_for type) sequence_number timestamp_ns
      ≡ ok (header_of type sequence_number timestamp_ns)
checked_header-own add_order_type sequence_number timestamp_ns = refl
checked_header-own cancel_order_type sequence_number timestamp_ns = refl
checked_header-own modify_order_type sequence_number timestamp_ns = refl
checked_header-own trade_type sequence_number timestamp_ns = refl
checked_header-own clear_book_type sequence_number timestamp_ns = refl

pub header_fields-bytes :
    (type : MessageType) (sequence_number : ℕ) (timestamp_ns : ℕ)
    → sequence_number < 2 ^ 64
    → timestamp_ns < 2 ^ 64
    → header_fields (header_bytes type sequence_number timestamp_ns)
      ≡ some (
        checked_header (type_code type) 0 (payload_size_for type) sequence_number timestamp_ns,
        [],
      )
unfolding put_u8 put_u16 put_u64
header_fields-bytes type sequence_number timestamp_ns h0 h1 =
    >>=-some _ _ (get_u8-bytes (type_code type) _ (type_code-lt type)) (
      >>=-some _ _ (get_u8-bytes 0 _ (omega arith)) (
        >>=-some _ _ (get_u16-bytes (payload_size_for type) _ (payload_size_for-lt type)) (
          >>=-some _ _ (get_u64-bytes sequence_number _ h0)
            (>>=-some _ _ (get_u64-bytes timestamp_ns [] h1) refl))))

pub decode_header-bytes :
    (type : MessageType) (sequence_number : ℕ) (timestamp_ns : ℕ) (rest : List ℕ)
    → sequence_number < 2 ^ 64
    → timestamp_ns < 2 ^ 64
    → decode_header (header_bytes type sequence_number timestamp_ns ++ rest)
      ≡ ok (header_of type sequence_number timestamp_ns)
unfolding decode_header put_u8 put_u16 put_u64
decode_header-bytes type sequence_number timestamp_ns rest h0 h1 =
    if-long (length (header_bytes type sequence_number timestamp_ns ++ rest)) 20 _ _ (omega arith)
    ∙ ap (result_or truncated_header) (header_fields-bytes type sequence_number timestamp_ns h0 h1)
    ∙ checked_header-own type sequence_number timestamp_ns

pub header_bytes-IsFrame :
    (type : MessageType) (sequence_number : ℕ) (timestamp_ns : ℕ) (payload : List ℕ) {m : Event}
    → sequence_number < 2 ^ 64
    → timestamp_ns < 2 ^ 64
    → length payload ≡ payload_size_for type
    → decode_payload (header_of type sequence_number timestamp_ns) payload ≡ ok m
    → IsFrame event_format
        (header_bytes type sequence_number timestamp_ns)
        payload
        (header_of type sequence_number timestamp_ns)
        m
unfolding put_u8 put_u16 put_u64
header_bytes-IsFrame type sequence_number timestamp_ns payload h0 h1 size decodes = record {
  header_length = refl;
  payload_length = size;
  size_fits = refl;
  header_decodes = λ rest. decode_header-bytes type sequence_number timestamp_ns rest h0 h1;
  payload_decodes = decodes;
}

pub checked_add_order-codes :
    (m : AddOrder)
    → checked_add_order
        (header_of add_order_type m.sequence_number m.timestamp_ns)
        m.order_id
        m.instrument_id
        m.price
        m.quantity
        (side_code m.side)
      ≡ ok (add_order m)
checked_add_order-codes m = rw (checked_add_order, side_of-side_code m.side) refl

pub add_order-decodes :
    (m : AddOrder)
    → FitsAddOrder m
    → decode_payload
        (header_of add_order_type m.sequence_number m.timestamp_ns)
        (put_add_order [] m)
      ≡ ok (add_order m)
unfolding put_u8 put_u32 put_u64 put_i64
add_order-decodes m w =
    ap (result_or truncated_payload) (
      >>=-some _ _ (get_u64-bytes m.order_id _ w.order_id_fits) (
        >>=-some _ _ (get_u32-bytes m.instrument_id _ w.instrument_id_fits) (
          >>=-some _ _ (get_i64-bytes m.price _ w.price_fits) (
            >>=-some _ _ (get_u64-bytes m.quantity _ w.quantity_fits)
              (>>=-some _ _ (get_u8-bytes (side_code m.side) [] (side_code-lt m.side)) refl)))))
    ∙ checked_add_order-codes m

pub cancel_order-decodes :
    (m : CancelOrder)
    → FitsCancelOrder m
    → decode_payload
        (header_of cancel_order_type m.sequence_number m.timestamp_ns)
        (put_cancel_order [] m)
      ≡ ok (cancel_order m)
unfolding put_u8 put_u32 put_u64 put_i64
cancel_order-decodes m w = ap (result_or truncated_payload) (
    >>=-some _ _ (get_u64-bytes m.order_id _ w.order_id_fits)
      (>>=-some _ _ (get_u32-bytes m.instrument_id [] w.instrument_id_fits) refl))

pub modify_order-decodes :
    (m : ModifyOrder)
    → FitsModifyOrder m
    → decode_payload
        (header_of modify_order_type m.sequence_number m.timestamp_ns)
        (put_modify_order [] m)
      ≡ ok (modify_order m)
unfolding put_u8 put_u32 put_u64 put_i64
modify_order-decodes m w = ap (result_or truncated_payload) (
    >>=-some _ _ (get_u64-bytes m.order_id _ w.order_id_fits) (
      >>=-some _ _ (get_u32-bytes m.instrument_id _ w.instrument_id_fits) (
        >>=-some _ _ (get_i64-bytes m.new_price _ w.new_price_fits)
          (>>=-some _ _ (get_u64-bytes m.new_quantity [] w.new_quantity_fits) refl))))

pub checked_trade-codes :
    (m : Trade)
    → checked_trade
        (header_of trade_type m.sequence_number m.timestamp_ns)
        m.instrument_id
        m.price
        m.quantity
        (side_code m.aggressor_side)
      ≡ ok (trade m)
checked_trade-codes m = rw (checked_trade, side_of-side_code m.aggressor_side) refl

pub trade-decodes :
    (m : Trade)
    → FitsTrade m
    → decode_payload (header_of trade_type m.sequence_number m.timestamp_ns) (put_trade [] m)
      ≡ ok (trade m)
unfolding put_u8 put_u32 put_u64 put_i64
trade-decodes m w =
    ap (result_or truncated_payload) (
      >>=-some _ _ (get_u32-bytes m.instrument_id _ w.instrument_id_fits) (
        >>=-some _ _ (get_i64-bytes m.price _ w.price_fits) (
          >>=-some _ _ (get_u64-bytes m.quantity _ w.quantity_fits) (
            >>=-some _ _
              (get_u8-bytes (side_code m.aggressor_side) [] (side_code-lt m.aggressor_side))
              refl))))
    ∙ checked_trade-codes m

pub clear_book-decodes :
    (m : ClearBook)
    → FitsClearBook m
    → decode_payload
        (header_of clear_book_type m.sequence_number m.timestamp_ns)
        (put_clear_book [] m)
      ≡ ok (clear_book m)
unfolding put_u8 put_u32 put_u64 put_i64
clear_book-decodes m w =
    ap (result_or truncated_payload)
      (>>=-some _ _ (get_u32-bytes m.instrument_id [] w.instrument_id_fits) refl)

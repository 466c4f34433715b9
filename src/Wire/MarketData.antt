-- ===== src/Wire/MarketData.antt =====
-- mdh/include/protocol/messages.hpp, errors.hpp and mdh/src/protocol/encoder.cpp, decoder.cpp: the
-- events of the market-data feed.
use cpp_projects.Base.{ℕ, Option, none, some, List, ltb, not, ◌==◌, if◌then◌else◌, length, take}
use cpp_projects.Base.Int.{ℤ}
use cpp_projects.Base.Result.{Result, ok, err}
use cpp_projects.Types.{Side, Price}
use cpp_projects.Wire.Bytes.{
  put_u8, put_u16, put_u32, put_u64, put_i64, get_u8, get_u16, get_u32, get_u64, get_i64, Parser,
  ◌>>=◌, pure, result_or,
}
use cpp_projects.Wire.Codes.{side_code, side_of}
use cpp_projects.Wire.Frame.{Format, decode}

pub data MessageType : Type 0 where
  add_order_type cancel_order_type modify_order_type trade_type : MessageType
  clear_book_type : MessageType

abbrev pub type_code : MessageType → ℕ
type_code add_order_type = 1
type_code cancel_order_type = 2
type_code modify_order_type = 3
type_code trade_type = 4
type_code clear_book_type = 5

pub data DecodeError : Type 0 where
  truncated_header truncated_payload invalid_reserved : DecodeError
  invalid_message_type invalid_message_size invalid_side : DecodeError

pub record Header : Type 0 where
  pub message_type : MessageType
  pub payload_size : ℕ
  pub sequence_number : ℕ
  pub timestamp_ns : ℕ

pub record AddOrder : Type 0 where
  pub sequence_number : ℕ
  pub timestamp_ns : ℕ
  pub order_id : ℕ
  pub instrument_id : ℕ
  pub price : Price
  pub quantity : ℕ
  pub side : Side

pub record CancelOrder : Type 0 where
  pub sequence_number : ℕ
  pub timestamp_ns : ℕ
  pub order_id : ℕ
  pub instrument_id : ℕ

pub record ModifyOrder : Type 0 where
  pub sequence_number : ℕ
  pub timestamp_ns : ℕ
  pub order_id : ℕ
  pub instrument_id : ℕ
  pub new_price : Price
  pub new_quantity : ℕ

pub record Trade : Type 0 where
  pub sequence_number : ℕ
  pub timestamp_ns : ℕ
  pub instrument_id : ℕ
  pub price : Price
  pub quantity : ℕ
  pub aggressor_side : Side

pub record ClearBook : Type 0 where
  pub sequence_number : ℕ
  pub timestamp_ns : ℕ
  pub instrument_id : ℕ

pub data Event : Type 0 where
  add_order : AddOrder → Event
  cancel_order : CancelOrder → Event
  modify_order : ModifyOrder → Event
  trade : Trade → Event
  clear_book : ClearBook → Event

abbrev pub payload_size_for : MessageType → ℕ
payload_size_for add_order_type = 29
payload_size_for cancel_order_type = 12
payload_size_for modify_order_type = 28
payload_size_for trade_type = 21
payload_size_for clear_book_type = 4

abbrev pub put_header : List ℕ → MessageType → ℕ → ℕ → ℕ → List ℕ
put_header out type sequence_number timestamp_ns payload_size =
    put_u64
      (put_u64 (put_u16 (put_u8 (put_u8 out (type_code type)) 0) payload_size) sequence_number)
      timestamp_ns

abbrev pub put_add_order : List ℕ → AddOrder → List ℕ
put_add_order out m =
    put_u8 (put_u64 (put_i64 (put_u32 (put_u64 out m.order_id) m.instrument_id) m.price) m.quantity)
      (side_code m.side)

abbrev pub put_cancel_order : List ℕ → CancelOrder → List ℕ
put_cancel_order out m = put_u32 (put_u64 out m.order_id) m.instrument_id

abbrev pub put_modify_order : List ℕ → ModifyOrder → List ℕ
put_modify_order out m =
    put_u64 (put_i64 (put_u32 (put_u64 out m.order_id) m.instrument_id) m.new_price) m.new_quantity

abbrev pub put_trade : List ℕ → Trade → List ℕ
put_trade out m =
    put_u8 (put_u64 (put_i64 (put_u32 out m.instrument_id) m.price) m.quantity)
      (side_code m.aggressor_side)

abbrev pub put_clear_book : List ℕ → ClearBook → List ℕ
put_clear_book out m = put_u32 out m.instrument_id

unfoldable pub encode_event : Event → List ℕ → List ℕ
encode_event (add_order m) out =
    put_add_order
      (put_header out add_order_type m.sequence_number m.timestamp_ns
        (payload_size_for add_order_type))
      m
encode_event (cancel_order m) out =
    put_cancel_order
      (put_header out cancel_order_type m.sequence_number m.timestamp_ns
        (payload_size_for cancel_order_type))
      m
encode_event (modify_order m) out =
    put_modify_order
      (put_header out modify_order_type m.sequence_number m.timestamp_ns
        (payload_size_for modify_order_type))
      m
encode_event (trade m) out =
    put_trade
      (put_header out trade_type m.sequence_number m.timestamp_ns (payload_size_for trade_type)) m
encode_event (clear_book m) out =
    put_clear_book
      (put_header out clear_book_type m.sequence_number m.timestamp_ns
        (payload_size_for clear_book_type))
      m

-- is_known_type and the cast.
abbrev pub message_type_of : ℕ → Option MessageType
message_type_of raw =
    if raw == 1
    then some add_order_type
    else if raw == 2
    then some cancel_order_type
    else if raw == 3
    then some modify_order_type
    else if raw == 4
    then some trade_type
    else if raw == 5
    then some clear_book_type
    else none

-- The tests on a header that was read whole.
abbrev pub checked_header : ℕ → ℕ → ℕ → ℕ → ℕ → Result DecodeError Header
checked_header type_raw reserved payload_size sequence_number timestamp_ns =
    if not (reserved == 0) then err invalid_reserved else elim (message_type_of type_raw) [
      | none ↦ err invalid_message_type
      | some type ↦ ok (record {
        message_type = type;
        payload_size = payload_size;
        sequence_number = sequence_number;
        timestamp_ns = timestamp_ns;
      })
    ]

abbrev pub header_fields : Parser (Result DecodeError Header)
header_fields = get_u8 >>= λ type_raw. get_u8 >>= λ reserved. get_u16 >>= λ payload_size.
    get_u64 >>= λ sequence_number. get_u64 >>= λ timestamp_ns.
    pure (checked_header type_raw reserved payload_size sequence_number timestamp_ns)

unfoldable pub decode_header : List ℕ → Result DecodeError Header
decode_header bytes =
    if ltb (length bytes) 20
    then err truncated_header
    else result_or truncated_header (header_fields (take 20 bytes))

-- The tests on the fields of AddOrder, with the casts.
abbrev pub checked_add_order : Header → ℕ → ℕ → ℤ → ℕ → ℕ → Result DecodeError Event
checked_add_order header order_id instrument_id price quantity side_raw = elim (side_of side_raw) [
  | none ↦ err invalid_side
  | some side ↦ ok (
      add_order (record {
        sequence_number = header.sequence_number;
        timestamp_ns = header.timestamp_ns;
        order_id = order_id;
        instrument_id = instrument_id;
        price = price;
        quantity = quantity;
        side = side;
      }))
]

abbrev pub add_order_fields : Header → Parser (Result DecodeError Event)
add_order_fields header = get_u64 >>= λ order_id. get_u32 >>= λ instrument_id. get_i64 >>= λ price.
    get_u64 >>= λ quantity. get_u8 >>= λ side_raw.
    pure (checked_add_order header order_id instrument_id price quantity side_raw)

abbrev pub cancel_order_fields : Header → Parser (Result DecodeError Event)
cancel_order_fields header = get_u64 >>= λ order_id. get_u32 >>= λ instrument_id. pure (
    ok (
      cancel_order (record {
        sequence_number = header.sequence_number;
        timestamp_ns = header.timestamp_ns;
        order_id = order_id;
        instrument_id = instrument_id;
      })))

abbrev pub modify_order_fields : Header → Parser (Result DecodeError Event)
modify_order_fields header = get_u64 >>= λ order_id. get_u32 >>= λ instrument_id.
    get_i64 >>= λ new_price. get_u64 >>= λ new_quantity. pure (
      ok (
        modify_order (record {
          sequence_number = header.sequence_number;
          timestamp_ns = header.timestamp_ns;
          order_id = order_id;
          instrument_id = instrument_id;
          new_price = new_price;
          new_quantity = new_quantity;
        })))

-- The tests on the fields of Trade, with the casts.
abbrev pub checked_trade : Header → ℕ → ℤ → ℕ → ℕ → Result DecodeError Event
checked_trade header instrument_id price quantity side_raw = elim (side_of side_raw) [
  | none ↦ err invalid_side
  | some aggressor_side ↦ ok (
      trade (record {
        sequence_number = header.sequence_number;
        timestamp_ns = header.timestamp_ns;
        instrument_id = instrument_id;
        price = price;
        quantity = quantity;
        aggressor_side = aggressor_side;
      }))
]

abbrev pub trade_fields : Header → Parser (Result DecodeError Event)
trade_fields header = get_u32 >>= λ instrument_id. get_i64 >>= λ price. get_u64 >>= λ quantity.
    get_u8 >>= λ side_raw. pure (checked_trade header instrument_id price quantity side_raw)

abbrev pub clear_book_fields : Header → Parser (Result DecodeError Event)
clear_book_fields header = get_u32 >>= λ instrument_id. pure (
    ok (
      clear_book (record {
        sequence_number = header.sequence_number;
        timestamp_ns = header.timestamp_ns;
        instrument_id = instrument_id;
      })))

abbrev pub payload_fields : Header → MessageType → Parser (Result DecodeError Event)
payload_fields header add_order_type = add_order_fields header
payload_fields header cancel_order_type = cancel_order_fields header
payload_fields header modify_order_type = modify_order_fields header
payload_fields header trade_type = trade_fields header
payload_fields header clear_book_type = clear_book_fields header

abbrev pub decode_payload : Header → List ℕ → Result DecodeError Event
decode_payload header bytes =
    result_or truncated_payload (payload_fields header header.message_type bytes)

abbrev pub event_format : Format DecodeError Header Event
event_format = record {
  header_size = 20;
  decode_header = decode_header;
  declared_size = λ header. header.payload_size;
  expected_size = λ header. payload_size_for header.message_type;
  decode_payload = decode_payload;
  invalid_size = invalid_message_size;
  truncated = truncated_payload;
}

unfoldable pub decode_event : List ℕ → Result DecodeError Event
decode_event = decode event_format

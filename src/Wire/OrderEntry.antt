-- ===== src/Wire/OrderEntry.antt =====
-- mdh/include/protocol/order_entry/messages.hpp, errors.hpp and mdh/src/protocol/order_entry/
-- encoder.cpp, decoder.cpp: the messages between a client and the gateway.
use cpp_projects.Base.{ℕ, Option, none, some, List, ltb, ◌==◌, if◌then◌else◌, length, take}
use cpp_projects.Base.Int.{ℤ}
use cpp_projects.Base.Result.{Result, ok, err}
use cpp_projects.Types.{Side, Price}
use cpp_projects.Exchange.Core.{OrderType, TimeInForce, RejectReason}
use cpp_projects.Wire.Bytes.{
  put_u8, put_u16, put_u32, put_u64, put_i64, get_u8, get_u16, get_u32, get_u64, get_i64, Parser,
  ◌>>=◌, pure, result_or,
}
use cpp_projects.Wire.Codes.{
  side_code, side_of, order_type_code, order_type_of, time_in_force_code, time_in_force_of,
  reject_reason_code, reject_reason_of,
}
use cpp_projects.Wire.Frame.{Format, decode}

pub data MessageType : Type 0 where
  new_order_type cancel_order_type replace_order_type accepted_type : MessageType
  rejected_type cancelled_type replaced_type trade_report_type : MessageType

abbrev pub type_code : MessageType → ℕ
type_code new_order_type = 1
type_code cancel_order_type = 2
type_code replace_order_type = 3
type_code accepted_type = 10
type_code rejected_type = 11
type_code cancelled_type = 12
type_code replaced_type = 13
type_code trade_report_type = 14

pub data DecodeError : Type 0 where
  truncated_header truncated_payload invalid_message_type : DecodeError
  invalid_message_size invalid_side invalid_order_type : DecodeError
  invalid_time_in_force invalid_reject_reason : DecodeError

pub record Header : Type 0 where
  pub message_type : MessageType
  pub payload_size : ℕ

pub record NewOrder : Type 0 where
  pub account_id : ℕ
  pub client_order_id : ℕ
  pub instrument_id : ℕ
  pub side : Side
  pub price : Price
  pub quantity : ℕ
  pub order_type : OrderType
  pub time_in_force : TimeInForce

pub record CancelOrder : Type 0 where
  pub account_id : ℕ
  pub client_order_id : ℕ
  pub instrument_id : ℕ

pub record ReplaceOrder : Type 0 where
  pub account_id : ℕ
  pub original_client_order_id : ℕ
  pub new_client_order_id : ℕ
  pub instrument_id : ℕ
  pub new_price : Price
  pub new_quantity : ℕ

pub record Accepted : Type 0 where
  pub account_id : ℕ
  pub client_order_id : ℕ
  pub exchange_order_id : ℕ
  pub instrument_id : ℕ
  pub side : Side
  pub price : Price
  pub quantity : ℕ
  pub order_type : OrderType
  pub time_in_force : TimeInForce

pub record Rejected : Type 0 where
  pub account_id : ℕ
  pub client_order_id : ℕ
  pub instrument_id : ℕ
  pub reason : RejectReason

pub record Cancelled : Type 0 where
  pub account_id : ℕ
  pub client_order_id : ℕ
  pub exchange_order_id : ℕ
  pub instrument_id : ℕ

pub record Replaced : Type 0 where
  pub account_id : ℕ
  pub original_client_order_id : ℕ
  pub new_client_order_id : ℕ
  pub exchange_order_id : ℕ
  pub instrument_id : ℕ
  pub new_price : Price
  pub new_quantity : ℕ

pub record TradeReport : Type 0 where
  pub account_id : ℕ
  pub client_order_id : ℕ
  pub exchange_order_id : ℕ
  pub instrument_id : ℕ
  pub price : Price
  pub quantity : ℕ
  pub remaining_quantity : ℕ

pub data Message : Type 0 where
  new_order : NewOrder → Message
  cancel_order : CancelOrder → Message
  replace_order : ReplaceOrder → Message
  accepted : Accepted → Message
  rejected : Rejected → Message
  cancelled : Cancelled → Message
  replaced : Replaced → Message
  trade_report : TradeReport → Message

abbrev pub payload_size_for : MessageType → ℕ
payload_size_for new_order_type = 39
payload_size_for cancel_order_type = 20
payload_size_for replace_order_type = 44
payload_size_for accepted_type = 47
payload_size_for rejected_type = 21
payload_size_for cancelled_type = 28
payload_size_for replaced_type = 52
payload_size_for trade_report_type = 52

abbrev pub put_header : List ℕ → MessageType → ℕ → List ℕ
put_header out type payload_size = put_u16 (put_u8 out (type_code type)) payload_size

abbrev pub put_new_order : List ℕ → NewOrder → List ℕ
put_new_order out m =
    put_u8
      (put_u8
        (put_u64
          (put_i64
            (put_u8 (put_u32 (put_u64 (put_u64 out m.account_id) m.client_order_id) m.instrument_id)
              (side_code m.side))
            m.price)
          m.quantity)
        (order_type_code m.order_type))
      (time_in_force_code m.time_in_force)

abbrev pub put_cancel_order : List ℕ → CancelOrder → List ℕ
put_cancel_order out m =
    put_u32 (put_u64 (put_u64 out m.account_id) m.client_order_id) m.instrument_id

abbrev pub put_replace_order : List ℕ → ReplaceOrder → List ℕ
put_replace_order out m =
    put_u64
      (put_i64
        (put_u32
          (put_u64 (put_u64 (put_u64 out m.account_id) m.original_client_order_id)
            m.new_client_order_id)
          m.instrument_id)
        m.new_price)
      m.new_quantity

abbrev pub put_accepted : List ℕ → Accepted → List ℕ
put_accepted out m =
    put_u8
      (put_u8
        (put_u64
          (put_i64
            (put_u8
              (put_u32
                (put_u64 (put_u64 (put_u64 out m.account_id) m.client_order_id) m.exchange_order_id)
                m.instrument_id)
              (side_code m.side))
            m.price)
          m.quantity)
        (order_type_code m.order_type))
      (time_in_force_code m.time_in_force)

abbrev pub put_rejected : List ℕ → Rejected → List ℕ
put_rejected out m =
    put_u8 (put_u32 (put_u64 (put_u64 out m.account_id) m.client_order_id) m.instrument_id)
      (reject_reason_code m.reason)

abbrev pub put_cancelled : List ℕ → Cancelled → List ℕ
put_cancelled out m =
    put_u32 (put_u64 (put_u64 (put_u64 out m.account_id) m.client_order_id) m.exchange_order_id)
      m.instrument_id

abbrev pub put_replaced : List ℕ → Replaced → List ℕ
put_replaced out m =
    put_u64
      (put_i64
        (put_u32
          (put_u64
            (put_u64 (put_u64 (put_u64 out m.account_id) m.original_client_order_id)
              m.new_client_order_id)
            m.exchange_order_id)
          m.instrument_id)
        m.new_price)
      m.new_quantity

abbrev pub put_trade_report : List ℕ → TradeReport → List ℕ
put_trade_report out m =
    put_u64
      (put_u64
        (put_i64
          (put_u32
            (put_u64 (put_u64 (put_u64 out m.account_id) m.client_order_id) m.exchange_order_id)
            m.instrument_id)
          m.price)
        m.quantity)
      m.remaining_quantity

unfoldable pub encode_message : Message → List ℕ → List ℕ
encode_message (new_order m) out =
    put_new_order (put_header out new_order_type (payload_size_for new_order_type)) m
encode_message (cancel_order m) out =
    put_cancel_order (put_header out cancel_order_type (payload_size_for cancel_order_type)) m
encode_message (replace_order m) out =
    put_replace_order (put_header out replace_order_type (payload_size_for replace_order_type)) m
encode_message (accepted m) out =
    put_accepted (put_header out accepted_type (payload_size_for accepted_type)) m
encode_message (rejected m) out =
    put_rejected (put_header out rejected_type (payload_size_for rejected_type)) m
encode_message (cancelled m) out =
    put_cancelled (put_header out cancelled_type (payload_size_for cancelled_type)) m
encode_message (replaced m) out =
    put_replaced (put_header out replaced_type (payload_size_for replaced_type)) m
encode_message (trade_report m) out =
    put_trade_report (put_header out trade_report_type (payload_size_for trade_report_type)) m

-- is_known_type and the cast.
abbrev pub message_type_of : ℕ → Option MessageType
message_type_of raw =
    if raw == 1
    then some new_order_type
    else if raw == 2
    then some cancel_order_type
    else if raw == 3
    then some replace_order_type
    else if raw == 10
    then some accepted_type
    else if raw == 11
    then some rejected_type
    else if raw == 12
    then some cancelled_type
    else if raw == 13
    then some replaced_type
    else if raw == 14
    then some trade_report_type
    else none

-- The tests on a header that was read whole.
abbrev pub checked_header : ℕ → ℕ → Result DecodeError Header
checked_header type_raw payload_size = elim (message_type_of type_raw) [
  | none ↦ err invalid_message_type
  | some type ↦ ok (record { message_type = type; payload_size = payload_size })
]

abbrev pub header_fields : Parser (Result DecodeError Header)
header_fields =
    get_u8 >>= λ type_raw. get_u16 >>= λ payload_size. pure (checked_header type_raw payload_size)

unfoldable pub decode_header : List ℕ → Result DecodeError Header
decode_header bytes =
    if ltb (length bytes) 3
    then err truncated_header
    else result_or truncated_header (header_fields (take 3 bytes))

-- The tests on the fields of NewOrder, with the casts.
abbrev pub checked_new_order : Header → ℕ → ℕ → ℕ → ℕ → ℤ → ℕ → ℕ → ℕ → Result DecodeError Message
checked_new_order header account_id client_order_id instrument_id side_raw price quantity
      order_type_raw tif_raw =
    elim (side_of side_raw) [
      | none ↦ err invalid_side
      | some side ↦ elim (order_type_of order_type_raw) [
        | none ↦ err invalid_order_type
        | some order_type ↦ elim (time_in_force_of tif_raw) [
          | none ↦ err invalid_time_in_force
          | some time_in_force ↦ ok (
              new_order (record {
                account_id = account_id;
                client_order_id = client_order_id;
                instrument_id = instrument_id;
                side = side;
                price = price;
                quantity = quantity;
                order_type = order_type;
                time_in_force = time_in_force;
              }))
        ]
      ]
    ]

abbrev pub new_order_fields : Header → Parser (Result DecodeError Message)
new_order_fields header = get_u64 >>= λ account_id. get_u64 >>= λ client_order_id.
    get_u32 >>= λ instrument_id. get_u8 >>= λ side_raw. get_i64 >>= λ price. get_u64 >>= λ quantity.
    get_u8 >>= λ order_type_raw. get_u8 >>= λ tif_raw. pure (
      checked_new_order header account_id client_order_id instrument_id side_raw price quantity
        order_type_raw tif_raw)

abbrev pub cancel_order_fields : Header → Parser (Result DecodeError Message)
cancel_order_fields header = get_u64 >>= λ account_id. get_u64 >>= λ client_order_id.
    get_u32 >>= λ instrument_id. pure (
      ok (
        cancel_order (record {
          account_id = account_id;
          client_order_id = client_order_id;
          instrument_id = instrument_id;
        })))

abbrev pub replace_order_fields : Header → Parser (Result DecodeError Message)
replace_order_fields header = get_u64 >>= λ account_id. get_u64 >>= λ original_client_order_id.
    get_u64 >>= λ new_client_order_id. get_u32 >>= λ instrument_id. get_i64 >>= λ new_price.
    get_u64 >>= λ new_quantity. pure (
      ok (
        replace_order (record {
          account_id = account_id;
          original_client_order_id = original_client_order_id;
          new_client_order_id = new_client_order_id;
          instrument_id = instrument_id;
          new_price = new_price;
          new_quantity = new_quantity;
        })))

-- The tests on the fields of Accepted, with the casts.
abbrev pub checked_accepted :
    Header → ℕ → ℕ → ℕ → ℕ → ℕ → ℤ → ℕ → ℕ → ℕ → Result DecodeError Message
checked_accepted header account_id client_order_id exchange_order_id instrument_id side_raw price
      quantity order_type_raw tif_raw =
    elim (side_of side_raw) [
      | none ↦ err invalid_side
      | some side ↦ elim (order_type_of order_type_raw) [
        | none ↦ err invalid_order_type
        | some order_type ↦ elim (time_in_force_of tif_raw) [
          | none ↦ err invalid_time_in_force
          | some time_in_force ↦ ok (
              accepted (record {
                account_id = account_id;
                client_order_id = client_order_id;
                exchange_order_id = exchange_order_id;
                instrument_id = instrument_id;
                side = side;
                price = price;
                quantity = quantity;
                order_type = order_type;
                time_in_force = time_in_force;
              }))
        ]
      ]
    ]

abbrev pub accepted_fields : Header → Parser (Result DecodeError Message)
accepted_fields header = get_u64 >>= λ account_id. get_u64 >>= λ client_order_id.
    get_u64 >>= λ exchange_order_id. get_u32 >>= λ instrument_id. get_u8 >>= λ side_raw.
    get_i64 >>= λ price. get_u64 >>= λ quantity. get_u8 >>= λ order_type_raw. get_u8 >>= λ tif_raw.
    pure (
      checked_accepted header account_id client_order_id exchange_order_id instrument_id side_raw
        price quantity order_type_raw tif_raw)

-- The tests on the fields of Rejected, with the casts.
abbrev pub checked_rejected : Header → ℕ → ℕ → ℕ → ℕ → Result DecodeError Message
checked_rejected header account_id client_order_id instrument_id reason_raw =
    elim (reject_reason_of reason_raw) [
      | none ↦ err invalid_reject_reason
      | some reason ↦ ok (
          rejected (record {
            account_id = account_id;
            client_order_id = client_order_id;
            instrument_id = instrument_id;
            reason = reason;
          }))
    ]

abbrev pub rejected_fields : Header → Parser (Result DecodeError Message)
rejected_fields header = get_u64 >>= λ account_id. get_u64 >>= λ client_order_id.
    get_u32 >>= λ instrument_id. get_u8 >>= λ reason_raw.
    pure (checked_rejected header account_id client_order_id instrument_id reason_raw)

abbrev pub cancelled_fields : Header → Parser (Result DecodeError Message)
cancelled_fields header = get_u64 >>= λ account_id. get_u64 >>= λ client_order_id.
    get_u64 >>= λ exchange_order_id. get_u32 >>= λ instrument_id. pure (
      ok (
        cancelled (record {
          account_id = account_id;
          client_order_id = client_order_id;
          exchange_order_id = exchange_order_id;
          instrument_id = instrument_id;
        })))

abbrev pub replaced_fields : Header → Parser (Result DecodeError Message)
replaced_fields header = get_u64 >>= λ account_id. get_u64 >>= λ original_client_order_id.
    get_u64 >>= λ new_client_order_id. get_u64 >>= λ exchange_order_id. get_u32 >>= λ instrument_id.
    get_i64 >>= λ new_price. get_u64 >>= λ new_quantity. pure (
      ok (
        replaced (record {
          account_id = account_id;
          original_client_order_id = original_client_order_id;
          new_client_order_id = new_client_order_id;
          exchange_order_id = exchange_order_id;
          instrument_id = instrument_id;
          new_price = new_price;
          new_quantity = new_quantity;
        })))

abbrev pub trade_report_fields : Header → Parser (Result DecodeError Message)
trade_report_fields header = get_u64 >>= λ account_id. get_u64 >>= λ client_order_id.
    get_u64 >>= λ exchange_order_id. get_u32 >>= λ instrument_id. get_i64 >>= λ price.
    get_u64 >>= λ quantity. get_u64 >>= λ remaining_quantity. pure (
      ok (
        trade_report (record {
          account_id = account_id;
          client_order_id = client_order_id;
          exchange_order_id = exchange_order_id;
          instrument_id = instrument_id;
          price = price;
          quantity = quantity;
          remaining_quantity = remaining_quantity;
        })))

abbrev pub payload_fields : Header → MessageType → Parser (Result DecodeError Message)
payload_fields header new_order_type = new_order_fields header
payload_fields header cancel_order_type = cancel_order_fields header
payload_fields header replace_order_type = replace_order_fields header
payload_fields header accepted_type = accepted_fields header
payload_fields header rejected_type = rejected_fields header
payload_fields header cancelled_type = cancelled_fields header
payload_fields header replaced_type = replaced_fields header
payload_fields header trade_report_type = trade_report_fields header

abbrev pub decode_payload : Header → List ℕ → Result DecodeError Message
decode_payload header bytes =
    result_or truncated_payload (payload_fields header header.message_type bytes)

abbrev pub message_format : Format DecodeError Header Message
message_format = record {
  header_size = 3;
  decode_header = decode_header;
  declared_size = λ header. header.payload_size;
  expected_size = λ header. payload_size_for header.message_type;
  decode_payload = decode_payload;
  invalid_size = invalid_message_size;
  truncated = truncated_payload;
}

unfoldable pub decode_message : List ℕ → Result DecodeError Message
decode_message = decode message_format

-- ===== src/Wire/Journal.antt =====
-- mdh/include/exchange/persistence/command_messages.hpp, command_errors.hpp and mdh/src/exchange/
-- persistence/command_encoder.cpp, command_decoder.cpp: the frames of the command journal.
use cpp_projects.Base.{ℕ, Option, none, some, List, ltb, not, ◌==◌, if◌then◌else◌, length, take}
use cpp_projects.Base.Int.{ℤ}
use cpp_projects.Base.Result.{Result, ok, err}
use cpp_projects.Exchange.Core.{
  NewOrderCommand, CancelOrderCommand, ReplaceOrderCommand, ExchangeCommand, new_order,
  cancel_order, replace_order,
}
use cpp_projects.Wire.Bytes.{
  put_u8, put_u16, put_u32, put_u64, put_i64, get_u8, get_u16, get_u32, get_u64, get_i64, Parser,
  ◌>>=◌, pure, result_or,
}
use cpp_projects.Wire.Codes.{
  side_code, side_of, order_type_code, order_type_of, time_in_force_code, time_in_force_of,
}
use cpp_projects.Wire.Frame.{Format, decode}

pub data CommandMessageType : Type 0 where
  new_order_type cancel_order_type replace_order_type register_instrument_type : CommandMessageType

abbrev pub type_code : CommandMessageType → ℕ
type_code new_order_type = 1
type_code cancel_order_type = 2
type_code replace_order_type = 3
type_code register_instrument_type = 4

pub data CommandDecodeError : Type 0 where
  truncated_header truncated_payload invalid_reserved : CommandDecodeError
  invalid_message_type invalid_message_size : CommandDecodeError
  invalid_side invalid_order_type invalid_time_in_force : CommandDecodeError

pub record CommandHeader : Type 0 where
  pub message_type : CommandMessageType
  pub payload_size : ℕ
  pub command_sequence : ℕ

abbrev pub payload_size_for : CommandMessageType → ℕ
payload_size_for new_order_type = 39
payload_size_for cancel_order_type = 20
payload_size_for replace_order_type = 44
payload_size_for register_instrument_type = 4

-- DecodedFrame without its error alternative.
pub data JournalFrame : Type 0 where
  command : ExchangeCommand → JournalFrame
  register_instrument : ℕ → JournalFrame

-- `type` and `payload_size` are the values that the casts of the callers give.
abbrev pub put_header : List ℕ → CommandMessageType → ℕ → ℕ → List ℕ
unfolding put_u8 put_u16 put_u64
put_header out type command_sequence payload_size =
    put_u64 (put_u16 (put_u8 (put_u8 out (type_code type)) 0) payload_size) command_sequence

abbrev pub put_new_order : List ℕ → NewOrderCommand → List ℕ
unfolding put_u8 put_u32 put_u64 put_i64
put_new_order out c =
    put_u8
      (put_u8
        (put_u64
          (put_i64
            (put_u8 (put_u32 (put_u64 (put_u64 out c.account_id) c.client_order_id) c.instrument_id)
              (side_code c.side))
            c.price)
          c.quantity)
        (order_type_code c.order_type))
      (time_in_force_code c.time_in_force)

abbrev pub put_cancel_order : List ℕ → CancelOrderCommand → List ℕ
unfolding put_u32 put_u64
put_cancel_order out c =
    put_u32 (put_u64 (put_u64 out c.account_id) c.client_order_id) c.instrument_id

abbrev pub put_replace_order : List ℕ → ReplaceOrderCommand → List ℕ
unfolding put_u32 put_u64 put_i64
put_replace_order out c =
    put_u64
      (put_i64
        (put_u32
          (put_u64 (put_u64 (put_u64 out c.account_id) c.original_client_order_id)
            c.new_client_order_id)
          c.instrument_id)
        c.new_price)
      c.new_quantity

unfoldable pub encode_command : ExchangeCommand → List ℕ → List ℕ
encode_command (new_order c) out =
    put_new_order
      (put_header out new_order_type c.command_sequence (payload_size_for new_order_type)) c
encode_command (cancel_order c) out =
    put_cancel_order
      (put_header out cancel_order_type c.command_sequence (payload_size_for cancel_order_type)) c
encode_command (replace_order c) out =
    put_replace_order
      (put_header out replace_order_type c.command_sequence (payload_size_for replace_order_type)) c

unfoldable pub encode_register_instrument : ℕ → List ℕ → List ℕ
unfolding put_u32
encode_register_instrument instrument_id out =
    put_u32 (put_header out register_instrument_type 0 (payload_size_for register_instrument_type))
      instrument_id

-- is_known_type and the cast.
abbrev pub message_type_of : ℕ → Option CommandMessageType
message_type_of raw =
    if raw == 1
    then some new_order_type
    else if raw == 2
    then some cancel_order_type
    else if raw == 3
    then some replace_order_type
    else if raw == 4
    then some register_instrument_type
    else none

-- The tests on a header that was read whole.
abbrev pub checked_header : ℕ → ℕ → ℕ → ℕ → Result CommandDecodeError CommandHeader
checked_header type_raw reserved payload_size command_sequence =
    if not (reserved == 0) then err invalid_reserved else elim (message_type_of type_raw) [
      | none ↦ err invalid_message_type
      | some type ↦ ok (record {
        message_type = type;
        payload_size = payload_size;
        command_sequence = command_sequence;
      })
    ]

abbrev pub header_fields : Parser (Result CommandDecodeError CommandHeader)
header_fields = get_u8 >>= λ type_raw. get_u8 >>= λ reserved. get_u16 >>= λ payload_size.
    get_u64 >>= λ command_sequence.
    pure (checked_header type_raw reserved payload_size command_sequence)

unfoldable pub decode_command_header : List ℕ → Result CommandDecodeError CommandHeader
decode_command_header bytes =
    if ltb (length bytes) 12
    then err truncated_header
    else result_or truncated_header (header_fields (take 12 bytes))

-- The tests on the fields of a new order, with the casts.
abbrev pub checked_new_order :
    CommandHeader → ℕ → ℕ → ℕ → ℕ → ℤ → ℕ → ℕ → ℕ → Result CommandDecodeError JournalFrame
checked_new_order header account_id client_order_id instrument_id side_raw price quantity
      order_type_raw tif_raw =
    elim (side_of side_raw) [
      | none ↦ err invalid_side
      | some side ↦ elim (order_type_of order_type_raw) [
        | none ↦ err invalid_order_type
        | some order_type ↦ elim (time_in_force_of tif_raw) [
          | none ↦ err invalid_time_in_force
          | some time_in_force ↦ ok (
              command (
                new_order (record {
                  command_sequence = header.command_sequence;
                  account_id = account_id;
                  client_order_id = client_order_id;
                  instrument_id = instrument_id;
                  side = side;
                  price = price;
                  quantity = quantity;
                  order_type = order_type;
                  time_in_force = time_in_force;
                })))
        ]
      ]
    ]

abbrev pub new_order_fields : CommandHeader → Parser (Result CommandDecodeError JournalFrame)
new_order_fields header = get_u64 >>= λ account_id. get_u64 >>= λ client_order_id.
    get_u32 >>= λ instrument_id. get_u8 >>= λ side_raw. get_i64 >>= λ price. get_u64 >>= λ quantity.
    get_u8 >>= λ order_type_raw. get_u8 >>= λ tif_raw. pure (
      checked_new_order header account_id client_order_id instrument_id side_raw price quantity
        order_type_raw tif_raw)

abbrev pub cancel_order_fields : CommandHeader → Parser (Result CommandDecodeError JournalFrame)
cancel_order_fields header = get_u64 >>= λ account_id. get_u64 >>= λ client_order_id.
    get_u32 >>= λ instrument_id. pure (
      ok (
        command (
          cancel_order (record {
            command_sequence = header.command_sequence;
            account_id = account_id;
            client_order_id = client_order_id;
            instrument_id = instrument_id;
          }))))

abbrev pub replace_order_fields : CommandHeader → Parser (Result CommandDecodeError JournalFrame)
replace_order_fields header = get_u64 >>= λ account_id. get_u64 >>= λ original_client_order_id.
    get_u64 >>= λ new_client_order_id. get_u32 >>= λ instrument_id. get_i64 >>= λ new_price.
    get_u64 >>= λ new_quantity. pure (
      ok (
        command (
          replace_order (record {
            command_sequence = header.command_sequence;
            account_id = account_id;
            original_client_order_id = original_client_order_id;
            new_client_order_id = new_client_order_id;
            instrument_id = instrument_id;
            new_price = new_price;
            new_quantity = new_quantity;
          }))))

abbrev pub register_instrument_fields : Parser (Result CommandDecodeError JournalFrame)
register_instrument_fields =
    get_u32 >>= λ instrument_id. pure (ok (register_instrument instrument_id))

abbrev pub payload_fields :
    CommandHeader → CommandMessageType → Parser (Result CommandDecodeError JournalFrame)
payload_fields header new_order_type = new_order_fields header
payload_fields header cancel_order_type = cancel_order_fields header
payload_fields header replace_order_type = replace_order_fields header
payload_fields header register_instrument_type = register_instrument_fields

abbrev pub decode_payload : CommandHeader → List ℕ → Result CommandDecodeError JournalFrame
decode_payload header bytes =
    result_or truncated_payload (payload_fields header header.message_type bytes)

abbrev pub journal_format : Format CommandDecodeError CommandHeader JournalFrame
journal_format = record {
  header_size = 12;
  decode_header = decode_command_header;
  declared_size = λ header. header.payload_size;
  expected_size = λ header. payload_size_for header.message_type;
  decode_payload = decode_payload;
  invalid_size = invalid_message_size;
  truncated = truncated_payload;
}

unfoldable pub decode_journal_frame : List ℕ → Result CommandDecodeError JournalFrame
decode_journal_frame = decode journal_format

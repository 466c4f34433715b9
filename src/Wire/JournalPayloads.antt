-- ===== src/Wire/JournalPayloads.antt =====
-- mdh/src/exchange/persistence/command_encoder.cpp, command_decoder.cpp: the headers and the payloads of the
-- command journal, decoded.
use cpp_projects.Base.{ℕ, ◌^◌, ◌<◌, ◌≡◌, refl, ap, ◌∙◌, some, List, [], ◌++◌, arith, length}
use cpp_projects.Base.Word.{IsI64}
use cpp_projects.Base.Result.{ok}
use cpp_projects.Exchange.Core.{
  NewOrderCommand, CancelOrderCommand, ReplaceOrderCommand, ExchangeCommand, new_order,
  cancel_order, replace_order,
}
use cpp_projects.Wire.Bytes.{
  put_u8, put_u16, put_u32, put_u64, put_i64, result_or, get_u8-bytes, get_u16-bytes, get_u32-bytes,
  get_u64-bytes, get_i64-bytes, >>=-some,
}
use cpp_projects.Wire.Codes.{
  side_code, order_type_code, time_in_force_code, side_of-side_code, order_type_of-order_type_code,
  time_in_force_of-time_in_force_code, side_code-lt, order_type_code-lt, time_in_force_code-lt,
}
use cpp_projects.Wire.Frame.{IsFrame, if-long}
use cpp_projects.Wire.Journal.{
  CommandMessageType, CommandHeader, JournalFrame, command, type_code, new_order_type,
  cancel_order_type, replace_order_type, register_instrument_type, payload_size_for, put_header,
  put_new_order, put_cancel_order, put_replace_order, decode_command_header, checked_header,
  header_fields, decode_payload, checked_new_order, journal_format, truncated_header,
  truncated_payload,
}

-- The values of a command are in the ranges of their C++ types.
pub record FitsNewOrder (c : NewOrderCommand) : Type 0 where
  pub sequence_fits : c.command_sequence < 2 ^ 64
  pub account_fits : c.account_id < 2 ^ 64
  pub client_order_fits : c.client_order_id < 2 ^ 64
  pub instrument_fits : c.instrument_id < 2 ^ 32
  pub price_fits : IsI64 c.price
  pub quantity_fits : c.quantity < 2 ^ 64

pub record FitsCancelOrder (c : CancelOrderCommand) : Type 0 where
  pub sequence_fits : c.command_sequence < 2 ^ 64
  pub account_fits : c.account_id < 2 ^ 64
  pub client_order_fits : c.client_order_id < 2 ^ 64
  pub instrument_fits : c.instrument_id < 2 ^ 32

pub record FitsReplaceOrder (c : ReplaceOrderCommand) : Type 0 where
  pub sequence_fits : c.command_sequence < 2 ^ 64
  pub account_fits : c.account_id < 2 ^ 64
  pub original_order_fits : c.original_client_order_id < 2 ^ 64
  pub new_order_fits : c.new_client_order_id < 2 ^ 64
  pub instrument_fits : c.instrument_id < 2 ^ 32
  pub price_fits : IsI64 c.new_price
  pub quantity_fits : c.new_quantity < 2 ^ 64

abbrev pub FitsCommand : ExchangeCommand → Type 0
FitsCommand (new_order c) = FitsNewOrder c
FitsCommand (cancel_order c) = FitsCancelOrder c
FitsCommand (replace_order c) = FitsReplaceOrder c

pub type_code-lt : (type : CommandMessageType) → type_code type < 2 ^ 8
type_code-lt new_order_type = omega arith
type_code-lt cancel_order_type = omega arith
type_code-lt replace_order_type = omega arith
type_code-lt register_instrument_type = omega arith

pub payload_size_for-lt : (type : CommandMessageType) → payload_size_for type < 2 ^ 16
payload_size_for-lt new_order_type = omega arith
payload_size_for-lt cancel_order_type = omega arith
payload_size_for-lt replace_order_type = omega arith
payload_size_for-lt register_instrument_type = omega arith

abbrev pub header_of : CommandMessageType → ℕ → CommandHeader
header_of type sequence = record {
  message_type = type;
  payload_size = payload_size_for type;
  command_sequence = sequence;
}

abbrev pub header_bytes : CommandMessageType → ℕ → List ℕ
header_bytes type sequence = put_header [] type sequence (payload_size_for type)

pub checked_header-own :
    (type : CommandMessageType) (sequence : ℕ)
    → checked_header (type_code type) 0 (payload_size_for type) sequence
      ≡ ok (header_of type sequence)
checked_header-own new_order_type sequence = refl
checked_header-own cancel_order_type sequence = refl
checked_header-own replace_order_type sequence = refl
checked_header-own register_instrument_type sequence = refl

pub header_fields-bytes :
    (type : CommandMessageType) (sequence : ℕ)
    → sequence < 2 ^ 64
    → header_fields (header_bytes type sequence)
      ≡ some (checked_header (type_code type) 0 (payload_size_for type) sequence, [])
unfolding put_u8 put_u16 put_u64
header_fields-bytes type sequence h =
    >>=-some _ _ (get_u8-bytes (type_code type) _ (type_code-lt type)) (
      >>=-some _ _ (get_u8-bytes 0 _ (omega arith)) (
        >>=-some _ _ (get_u16-bytes (payload_size_for type) _ (payload_size_for-lt type))
          (>>=-some _ _ (get_u64-bytes sequence [] h) refl)))

pub decode_command_header-bytes :
    (type : CommandMessageType) (sequence : ℕ) (rest : List ℕ)
    → sequence < 2 ^ 64
    → decode_command_header (header_bytes type sequence ++ rest) ≡ ok (header_of type sequence)
unfolding decode_command_header put_u8 put_u16 put_u64
decode_command_header-bytes type sequence rest h =
    if-long (length (header_bytes type sequence ++ rest)) 12 _ _ (omega arith)
    ∙ ap (result_or truncated_header) (header_fields-bytes type sequence h)
    ∙ checked_header-own type sequence

pub header_bytes-IsFrame :
    (type : CommandMessageType) (sequence : ℕ) (payload : List ℕ) {m : JournalFrame}
    → sequence < 2 ^ 64
    → length payload ≡ payload_size_for type
    → decode_payload (header_of type sequence) payload ≡ ok m
    → IsFrame journal_format (header_bytes type sequence) payload (header_of type sequence) m
unfolding put_u8 put_u16 put_u64
header_bytes-IsFrame type sequence payload fits size decodes = record {
  header_length = refl;
  payload_length = size;
  size_fits = refl;
  header_decodes = λ rest. decode_command_header-bytes type sequence rest fits;
  payload_decodes = decodes;
}

pub checked_new_order-codes :
    (c : NewOrderCommand)
    → checked_new_order
        (header_of new_order_type c.command_sequence)
        c.account_id
        c.client_order_id
        c.instrument_id
        (side_code c.side)
        c.price
        c.quantity
        (order_type_code c.order_type)
        (time_in_force_code c.time_in_force)
      ≡ ok (command (new_order c))
checked_new_order-codes c =
    rw
      (
        checked_new_order,
        side_of-side_code c.side,
        order_type_of-order_type_code c.order_type,
        time_in_force_of-time_in_force_code c.time_in_force,
      )
      refl

pub new_order-decodes :
    (c : NewOrderCommand)
    → FitsNewOrder c
    → decode_payload (header_of new_order_type c.command_sequence) (put_new_order [] c)
      ≡ ok (command (new_order c))
unfolding put_u8 put_u32 put_u64 put_i64
new_order-decodes c w =
    ap (result_or truncated_payload) (
      >>=-some _ _ (get_u64-bytes c.account_id _ w.account_fits) (
        >>=-some _ _ (get_u64-bytes c.client_order_id _ w.client_order_fits) (
          >>=-some _ _ (get_u32-bytes c.instrument_id _ w.instrument_fits) (
            >>=-some _ _ (get_u8-bytes (side_code c.side) _ (side_code-lt c.side)) (
              >>=-some _ _ (get_i64-bytes c.price _ w.price_fits) (
                >>=-some _ _ (get_u64-bytes c.quantity _ w.quantity_fits) (
                  >>=-some _ _
                    (get_u8-bytes (order_type_code c.order_type) _
                      (order_type_code-lt c.order_type))
                    (>>=-some _ _
                      (get_u8-bytes (time_in_force_code c.time_in_force) []
                        (time_in_force_code-lt c.time_in_force))
                      refl))))))))
    ∙ checked_new_order-codes c

pub cancel_order-decodes :
    (c : CancelOrderCommand)
    → FitsCancelOrder c
    → decode_payload (header_of cancel_order_type c.command_sequence) (put_cancel_order [] c)
      ≡ ok (command (cancel_order c))
unfolding put_u32 put_u64
cancel_order-decodes c w = ap (result_or truncated_payload) (
    >>=-some _ _ (get_u64-bytes c.account_id _ w.account_fits) (
      >>=-some _ _ (get_u64-bytes c.client_order_id _ w.client_order_fits)
        (>>=-some _ _ (get_u32-bytes c.instrument_id [] w.instrument_fits) refl)))

pub replace_order-decodes :
    (c : ReplaceOrderCommand)
    → FitsReplaceOrder c
    → decode_payload (header_of replace_order_type c.command_sequence) (put_replace_order [] c)
      ≡ ok (command (replace_order c))
unfolding put_u32 put_u64 put_i64
replace_order-decodes c w = ap (result_or truncated_payload) (
    >>=-some _ _ (get_u64-bytes c.account_id _ w.account_fits) (
      >>=-some _ _ (get_u64-bytes c.original_client_order_id _ w.original_order_fits) (
        >>=-some _ _ (get_u64-bytes c.new_client_order_id _ w.new_order_fits) (
          >>=-some _ _ (get_u32-bytes c.instrument_id _ w.instrument_fits) (
            >>=-some _ _ (get_i64-bytes c.new_price _ w.price_fits)
              (>>=-some _ _ (get_u64-bytes c.new_quantity [] w.quantity_fits) refl))))))

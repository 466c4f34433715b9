-- ===== src/Wire/OrderEntryPayloads.antt =====
-- mdh/src/protocol/order_entry/encoder.cpp, decoder.cpp: the headers and the payloads of order entry, decoded.
use cpp_projects.Base.{ℕ, ◌^◌, ◌<◌, ◌≡◌, refl, ap, ◌∙◌, some, List, [], ◌++◌, arith, length}
use cpp_projects.Base.Word.{IsI64}
use cpp_projects.Base.Result.{ok}
use cpp_projects.Wire.Bytes.{
  put_u8, put_u16, put_u32, put_u64, put_i64, result_or, get_u8-bytes, get_u16-bytes, get_u32-bytes,
  get_u64-bytes, get_i64-bytes, >>=-some,
}
use cpp_projects.Wire.Codes.{
  side_code, order_type_code, time_in_force_code, reject_reason_code, side_of-side_code,
  order_type_of-order_type_code, time_in_force_of-time_in_force_code,
  reject_reason_of-reject_reason_code, side_code-lt, order_type_code-lt, time_in_force_code-lt,
  reject_reason_code-lt,
}
use cpp_projects.Wire.Frame.{IsFrame, if-long}
use cpp_projects.Wire.OrderEntry.{
  MessageType, Header, Message, type_code, payload_size_for, put_header, decode_header,
  checked_header, header_fields, decode_payload, message_format, truncated_header,
  truncated_payload, NewOrder, new_order, new_order_type, put_new_order, checked_new_order,
  CancelOrder, cancel_order, cancel_order_type, put_cancel_order, ReplaceOrder, replace_order,
  replace_order_type, put_replace_order, Accepted, accepted, accepted_type, put_accepted,
  checked_accepted, Rejected, rejected, rejected_type, put_rejected, checked_rejected, Cancelled,
  cancelled, cancelled_type, put_cancelled, Replaced, replaced, replaced_type, put_replaced,
  TradeReport, trade_report, trade_report_type, put_trade_report,
}

-- The values of a message are in the ranges of their C++ types.
pub record FitsNewOrder (m : NewOrder) : Type 0 where
  pub account_id_fits : m.account_id < 2 ^ 64
  pub client_order_id_fits : m.client_order_id < 2 ^ 64
  pub instrument_id_fits : m.instrument_id < 2 ^ 32
  pub price_fits : IsI64 m.price
  pub quantity_fits : m.quantity < 2 ^ 64

pub record FitsCancelOrder (m : CancelOrder) : Type 0 where
  pub account_id_fits : m.account_id < 2 ^ 64
  pub client_order_id_fits : m.client_order_id < 2 ^ 64
  pub instrument_id_fits : m.instrument_id < 2 ^ 32

pub record FitsReplaceOrder (m : ReplaceOrder) : Type 0 where
  pub account_id_fits : m.account_id < 2 ^ 64
  pub original_client_order_id_fits : m.original_client_order_id < 2 ^ 64
  pub new_client_order_id_fits : m.new_client_order_id < 2 ^ 64
  pub instrument_id_fits : m.instrument_id < 2 ^ 32
  pub new_price_fits : IsI64 m.new_price
  pub new_quantity_fits : m.new_quantity < 2 ^ 64

pub record FitsAccepted (m : Accepted) : Type 0 where
  pub account_id_fits : m.account_id < 2 ^ 64
  pub client_order_id_fits : m.client_order_id < 2 ^ 64
  pub exchange_order_id_fits : m.exchange_order_id < 2 ^ 64
  pub instrument_id_fits : m.instrument_id < 2 ^ 32
  pub price_fits : IsI64 m.price
  pub quantity_fits : m.quantity < 2 ^ 64

pub record FitsRejected (m : Rejected) : Type 0 where
  pub account_id_fits : m.account_id < 2 ^ 64
  pub client_order_id_fits : m.client_order_id < 2 ^ 64
  pub instrument_id_fits : m.instrument_id < 2 ^ 32

pub record FitsCancelled (m : Cancelled) : Type 0 where
  pub account_id_fits : m.account_id < 2 ^ 64
  pub client_order_id_fits : m.client_order_id < 2 ^ 64
  pub exchange_order_id_fits : m.exchange_order_id < 2 ^ 64
  pub instrument_id_fits : m.instrument_id < 2 ^ 32

pub record FitsReplaced (m : Replaced) : Type 0 where
  pub account_id_fits : m.account_id < 2 ^ 64
  pub original_client_order_id_fits : m.original_client_order_id < 2 ^ 64
  pub new_client_order_id_fits : m.new_client_order_id < 2 ^ 64
  pub exchange_order_id_fits : m.exchange_order_id < 2 ^ 64
  pub instrument_id_fits : m.instrument_id < 2 ^ 32
  pub new_price_fits : IsI64 m.new_price
  pub new_quantity_fits : m.new_quantity < 2 ^ 64

pub record FitsTradeReport (m : TradeReport) : Type 0 where
  pub account_id_fits : m.account_id < 2 ^ 64
  pub client_order_id_fits : m.client_order_id < 2 ^ 64
  pub exchange_order_id_fits : m.exchange_order_id < 2 ^ 64
  pub instrument_id_fits : m.instrument_id < 2 ^ 32
  pub price_fits : IsI64 m.price
  pub quantity_fits : m.quantity < 2 ^ 64
  pub remaining_quantity_fits : m.remaining_quantity < 2 ^ 64

abbrev pub FitsMessage : Message → Type 0
FitsMessage (new_order m) = FitsNewOrder m
FitsMessage (cancel_order m) = FitsCancelOrder m
FitsMessage (replace_order m) = FitsReplaceOrder m
FitsMessage (accepted m) = FitsAccepted m
FitsMessage (rejected m) = FitsRejected m
FitsMessage (cancelled m) = FitsCancelled m
FitsMessage (replaced m) = FitsReplaced m
FitsMessage (trade_report m) = FitsTradeReport m

pub type_code-lt : (type : MessageType) → type_code type < 2 ^ 8
type_code-lt new_order_type = omega arith
type_code-lt cancel_order_type = omega arith
type_code-lt replace_order_type = omega arith
type_code-lt accepted_type = omega arith
type_code-lt rejected_type = omega arith
type_code-lt cancelled_type = omega arith
type_code-lt replaced_type = omega arith
type_code-lt trade_report_type = omega arith

pub payload_size_for-lt : (type : MessageType) → payload_size_for type < 2 ^ 16
payload_size_for-lt new_order_type = omega arith
payload_size_for-lt cancel_order_type = omega arith
payload_size_for-lt replace_order_type = omega arith
payload_size_for-lt accepted_type = omega arith
payload_size_for-lt rejected_type = omega arith
payload_size_for-lt cancelled_type = omega arith
payload_size_for-lt replaced_type = omega arith
payload_size_for-lt trade_report_type = omega arith

abbrev pub header_of : MessageType → Header
header_of type = record { message_type = type; payload_size = payload_size_for type }

abbrev pub header_bytes : MessageType → List ℕ
header_bytes type = put_header [] type (payload_size_for type)

pub checked_header-own :
    (type : MessageType)
    → checked_header (type_code type) (payload_size_for type) ≡ ok (header_of type)
checked_header-own new_order_type = refl
checked_header-own cancel_order_type = refl
checked_header-own replace_order_type = refl
checked_header-own accepted_type = refl
checked_header-own rejected_type = refl
checked_header-own cancelled_type = refl
checked_header-own replaced_type = refl
checked_header-own trade_report_type = refl

pub header_fields-bytes :
    (type : MessageType)
    → header_fields (header_bytes type)
      ≡ some (checked_header (type_code type) (payload_size_for type), [])
unfolding put_u8 put_u16 put_u64
header_fields-bytes type =
    >>=-some _ _ (get_u8-bytes (type_code type) _ (type_code-lt type))
      (>>=-some _ _ (get_u16-bytes (payload_size_for type) [] (payload_size_for-lt type)) refl)

pub decode_header-bytes :
    (type : MessageType) (rest : List ℕ)
    → decode_header (header_bytes type ++ rest) ≡ ok (header_of type)
unfolding decode_header put_u8 put_u16 put_u64
decode_header-bytes type rest =
    if-long (length (header_bytes type ++ rest)) 3 _ _ (omega arith)
    ∙ ap (result_or truncated_header) (header_fields-bytes type)
    ∙ checked_header-own type

pub header_bytes-IsFrame :
    (type : MessageType) (payload : List ℕ) {m : Message}
    → length payload ≡ payload_size_for type
    → decode_payload (header_of type) payload ≡ ok m
    → IsFrame message_format (header_bytes type) payload (header_of type) m
unfolding put_u8 put_u16 put_u64
header_bytes-IsFrame type payload size decodes = record {
  header_length = refl;
  payload_length = size;
  size_fits = refl;
  header_decodes = λ rest. decode_header-bytes type rest;
  payload_decodes = decodes;
}

pub checked_new_order-codes :
    (m : NewOrder)
    → checked_new_order
        (header_of new_order_type)
        m.account_id
        m.client_order_id
        m.instrument_id
        (side_code m.side)
        m.price
        m.quantity
        (order_type_code m.order_type)
        (time_in_force_code m.time_in_force)
      ≡ ok (new_order m)
checked_new_order-codes m =
    rw
      (
        checked_new_order,
        side_of-side_code m.side,
        order_type_of-order_type_code m.order_type,
        time_in_force_of-time_in_force_code m.time_in_force,
      )
      refl

pub new_order-decodes :
    (m : NewOrder)
    → FitsNewOrder m
    → decode_payload (header_of new_order_type) (put_new_order [] m) ≡ ok (new_order m)
unfolding put_u8 put_u32 put_u64 put_i64
new_order-decodes m w =
    ap (result_or truncated_payload) (
      >>=-some _ _ (get_u64-bytes m.account_id _ w.account_id_fits) (
        >>=-some _ _ (get_u64-bytes m.client_order_id _ w.client_order_id_fits) (
          >>=-some _ _ (get_u32-bytes m.instrument_id _ w.instrument_id_fits) (
            >>=-some _ _ (get_u8-bytes (side_code m.side) _ (side_code-lt m.side)) (
              >>=-some _ _ (get_i64-bytes m.price _ w.price_fits) (
                >>=-some _ _ (get_u64-bytes m.quantity _ w.quantity_fits) (
                  >>=-some _ _
                    (get_u8-bytes (order_type_code m.order_type) _
                      (order_type_code-lt m.order_type))
                    (>>=-some _ _
                      (get_u8-bytes (time_in_force_code m.time_in_force) []
                        (time_in_force_code-lt m.time_in_force))
                      refl))))))))
    ∙ checked_new_order-codes m

pub cancel_order-decodes :
    (m : CancelOrder)
    → FitsCancelOrder m
    → decode_payload (header_of cancel_order_type) (put_cancel_order [] m) ≡ ok (cancel_order m)
unfolding put_u8 put_u32 put_u64 put_i64
cancel_order-decodes m w = ap (result_or truncated_payload) (
    >>=-some _ _ (get_u64-bytes m.account_id _ w.account_id_fits) (
      >>=-some _ _ (get_u64-bytes m.client_order_id _ w.client_order_id_fits)
        (>>=-some _ _ (get_u32-bytes m.instrument_id [] w.instrument_id_fits) refl)))

pub replace_order-decodes :
    (m : ReplaceOrder)
    → FitsReplaceOrder m
    → decode_payload (header_of replace_order_type) (put_replace_order [] m) ≡ ok (replace_order m)
unfolding put_u8 put_u32 put_u64 put_i64
replace_order-decodes m w = ap (result_or truncated_payload) (
    >>=-some _ _ (get_u64-bytes m.account_id _ w.account_id_fits) (
      >>=-some _ _ (get_u64-bytes m.original_client_order_id _ w.original_client_order_id_fits) (
        >>=-some _ _ (get_u64-bytes m.new_client_order_id _ w.new_client_order_id_fits) (
          >>=-some _ _ (get_u32-bytes m.instrument_id _ w.instrument_id_fits) (
            >>=-some _ _ (get_i64-bytes m.new_price _ w.new_price_fits)
              (>>=-some _ _ (get_u64-bytes m.new_quantity [] w.new_quantity_fits) refl))))))

pub checked_accepted-codes :
    (m : Accepted)
    → checked_accepted
        (header_of accepted_type)
        m.account_id
        m.client_order_id
        m.exchange_order_id
        m.instrument_id
        (side_code m.side)
        m.price
        m.quantity
        (order_type_code m.order_type)
        (time_in_force_code m.time_in_force)
      ≡ ok (accepted m)
checked_accepted-codes m =
    rw
      (
        checked_accepted,
        side_of-side_code m.side,
        order_type_of-order_type_code m.order_type,
        time_in_force_of-time_in_force_code m.time_in_force,
      )
      refl

pub accepted-decodes :
    (m : Accepted)
    → FitsAccepted m
    → decode_payload (header_of accepted_type) (put_accepted [] m) ≡ ok (accepted m)
unfolding put_u8 put_u32 put_u64 put_i64
accepted-decodes m w =
    ap (result_or truncated_payload) (
      >>=-some _ _ (get_u64-bytes m.account_id _ w.account_id_fits) (
        >>=-some _ _ (get_u64-bytes m.client_order_id _ w.client_order_id_fits) (
          >>=-some _ _ (get_u64-bytes m.exchange_order_id _ w.exchange_order_id_fits) (
            >>=-some _ _ (get_u32-bytes m.instrument_id _ w.instrument_id_fits) (
              >>=-some _ _ (get_u8-bytes (side_code m.side) _ (side_code-lt m.side)) (
                >>=-some _ _ (get_i64-bytes m.price _ w.price_fits) (
                  >>=-some _ _ (get_u64-bytes m.quantity _ w.quantity_fits) (
                    >>=-some _ _
                      (get_u8-bytes (order_type_code m.order_type) _
                        (order_type_code-lt m.order_type))
                      (>>=-some _ _
                        (get_u8-bytes (time_in_force_code m.time_in_force) []
                          (time_in_force_code-lt m.time_in_force))
                        refl)))))))))
    ∙ checked_accepted-codes m

pub checked_rejected-codes :
    (m : Rejected)
    → checked_rejected
        (header_of rejected_type)
        m.account_id
        m.client_order_id
        m.instrument_id
        (reject_reason_code m.reason)
      ≡ ok (rejected m)
checked_rejected-codes m = rw (checked_rejected, reject_reason_of-reject_reason_code m.reason) refl

pub rejected-decodes :
    (m : Rejected)
    → FitsRejected m
    → decode_payload (header_of rejected_type) (put_rejected [] m) ≡ ok (rejected m)
unfolding put_u8 put_u32 put_u64 put_i64
rejected-decodes m w =
    ap (result_or truncated_payload) (
      >>=-some _ _ (get_u64-bytes m.account_id _ w.account_id_fits) (
        >>=-some _ _ (get_u64-bytes m.client_order_id _ w.client_order_id_fits) (
          >>=-some _ _ (get_u32-bytes m.instrument_id _ w.instrument_id_fits) (
            >>=-some _ _
              (get_u8-bytes (reject_reason_code m.reason) [] (reject_reason_code-lt m.reason))
              refl))))
    ∙ checked_rejected-codes m

pub cancelled-decodes :
    (m : Cancelled)
    → FitsCancelled m
    → decode_payload (header_of cancelled_type) (put_cancelled [] m) ≡ ok (cancelled m)
unfolding put_u8 put_u32 put_u64 put_i64
cancelled-decodes m w = ap (result_or truncated_payload) (
    >>=-some _ _ (get_u64-bytes m.account_id _ w.account_id_fits) (
      >>=-some _ _ (get_u64-bytes m.client_order_id _ w.client_order_id_fits) (
        >>=-some _ _ (get_u64-bytes m.exchange_order_id _ w.exchange_order_id_fits)
          (>>=-some _ _ (get_u32-bytes m.instrument_id [] w.instrument_id_fits) refl))))

pub replaced-decodes :
    (m : Replaced)
    → FitsReplaced m
    → decode_payload (header_of replaced_type) (put_replaced [] m) ≡ ok (replaced m)
unfolding put_u8 put_u32 put_u64 put_i64
replaced-decodes m w = ap (result_or truncated_payload) (
    >>=-some _ _ (get_u64-bytes m.account_id _ w.account_id_fits) (
      >>=-some _ _ (get_u64-bytes m.original_client_order_id _ w.original_client_order_id_fits) (
        >>=-some _ _ (get_u64-bytes m.new_client_order_id _ w.new_client_order_id_fits) (
          >>=-some _ _ (get_u64-bytes m.exchange_order_id _ w.exchange_order_id_fits) (
            >>=-some _ _ (get_u32-bytes m.instrument_id _ w.instrument_id_fits) (
              >>=-some _ _ (get_i64-bytes m.new_price _ w.new_price_fits)
                (>>=-some _ _ (get_u64-bytes m.new_quantity [] w.new_quantity_fits) refl)))))))

pub trade_report-decodes :
    (m : TradeReport)
    → FitsTradeReport m
    → decode_payload (header_of trade_report_type) (put_trade_report [] m) ≡ ok (trade_report m)
unfolding put_u8 put_u32 put_u64 put_i64
trade_report-decodes m w = ap (result_or truncated_payload) (
    >>=-some _ _ (get_u64-bytes m.account_id _ w.account_id_fits) (
      >>=-some _ _ (get_u64-bytes m.client_order_id _ w.client_order_id_fits) (
        >>=-some _ _ (get_u64-bytes m.exchange_order_id _ w.exchange_order_id_fits) (
          >>=-some _ _ (get_u32-bytes m.instrument_id _ w.instrument_id_fits) (
            >>=-some _ _ (get_i64-bytes m.price _ w.price_fits) (
              >>=-some _ _ (get_u64-bytes m.quantity _ w.quantity_fits) (
                >>=-some _ _ (get_u64-bytes m.remaining_quantity [] w.remaining_quantity_fits)
                  refl)))))))

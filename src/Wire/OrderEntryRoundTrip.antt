-- ===== src/Wire/OrderEntryRoundTrip.antt =====
-- The round trip of order entry: decode_message on what encode_message writes.
use cpp_projects.Base.{ℕ, ◌≡◌, refl, List, [], ◌++◌}
use cpp_projects.Base.Result.{ok}
use cpp_projects.Wire.Bytes.{put_u8, put_u16, put_u32, put_u64, put_i64}
use cpp_projects.Wire.Frame.{decode-IsFrame}
use cpp_projects.Wire.OrderEntry.{
  Message, encode_message, message_format, decode_message, new_order, new_order_type, put_new_order,
  cancel_order, cancel_order_type, put_cancel_order, replace_order, replace_order_type,
  put_replace_order, accepted, accepted_type, put_accepted, rejected, rejected_type, put_rejected,
  cancelled, cancelled_type, put_cancelled, replaced, replaced_type, put_replaced, trade_report,
  trade_report_type, put_trade_report,
}
use cpp_projects.Wire.OrderEntryPayloads.{
  FitsMessage, header_bytes, header_bytes-IsFrame, new_order-decodes, cancel_order-decodes,
  replace_order-decodes, accepted-decodes, rejected-decodes, cancelled-decodes, replaced-decodes,
  trade_report-decodes,
}

-- A message whose values are in the ranges of their C++ types is what decode_message gives on the
-- bytes that encode_message appends for it, whatever bytes follow them.
pub decode_message-encode_message :
    (m : Message) (rest : List ℕ)
    → FitsMessage m
    → decode_message (encode_message m [] ++ rest) ≡ ok m
unfolding decode_message encode_message put_u8 put_u16 put_u32 put_u64 put_i64
decode_message-encode_message (new_order m) rest w =
    decode-IsFrame message_format (header_bytes new_order_type) (put_new_order [] m) rest
      (header_bytes-IsFrame new_order_type _ refl (new_order-decodes m w))
decode_message-encode_message (cancel_order m) rest w =
    decode-IsFrame message_format (header_bytes cancel_order_type) (put_cancel_order [] m) rest
      (header_bytes-IsFrame cancel_order_type _ refl (cancel_order-decodes m w))
decode_message-encode_message (replace_order m) rest w =
    decode-IsFrame message_format (header_bytes replace_order_type) (put_replace_order [] m) rest
      (header_bytes-IsFrame replace_order_type _ refl (replace_order-decodes m w))
decode_message-encode_message (accepted m) rest w =
    decode-IsFrame message_format (header_bytes accepted_type) (put_accepted [] m) rest
      (header_bytes-IsFrame accepted_type _ refl (accepted-decodes m w))
decode_message-encode_message (rejected m) rest w =
    decode-IsFrame message_format (header_bytes rejected_type) (put_rejected [] m) rest
      (header_bytes-IsFrame rejected_type _ refl (rejected-decodes m w))
decode_message-encode_message (cancelled m) rest w =
    decode-IsFrame message_format (header_bytes cancelled_type) (put_cancelled [] m) rest
      (header_bytes-IsFrame cancelled_type _ refl (cancelled-decodes m w))
decode_message-encode_message (replaced m) rest w =
    decode-IsFrame message_format (header_bytes replaced_type) (put_replaced [] m) rest
      (header_bytes-IsFrame replaced_type _ refl (replaced-decodes m w))
decode_message-encode_message (trade_report m) rest w =
    decode-IsFrame message_format (header_bytes trade_report_type) (put_trade_report [] m) rest
      (header_bytes-IsFrame trade_report_type _ refl (trade_report-decodes m w))

-- ===== src/Wire/Tests.antt =====
-- Messages of each format, encoded and decoded.
use cpp_projects.Base.{◌+◌, ◌^◌, ◌≡◌, refl, [], ◌∷◌, ◌++◌, arith}
use cpp_projects.Base.Int.{pos, negsuc}
use cpp_projects.Base.Word.{pos_fits, neg_fits}
use cpp_projects.Base.Result.{ok}
use cpp_projects.Types.{sell}
use cpp_projects.Exchange.Core
use cpp_projects.Exchange.Core.{limit, gtc, ioc, insufficient_funds}
use cpp_projects.Wire.Bytes.{put_u8, put_u16, put_u32, put_u64}
use cpp_projects.Wire.Journal.{decode_journal_frame, encode_command, command}
use cpp_projects.Wire.JournalRoundTrip.{decode_journal_frame-encode_command}
use cpp_projects.Wire.MarketData
use cpp_projects.Wire.MarketData.{decode_event, encode_event, decode_header, trade, invalid_side}
use cpp_projects.Wire.MarketDataRoundTrip.{decode_event-encode_event}
use cpp_projects.Wire.OrderEntry
use cpp_projects.Wire.OrderEntry.{decode_message, encode_message, rejected}
use cpp_projects.Wire.OrderEntryRoundTrip.{decode_message-encode_message}

abbrev new_order_command : Core.ExchangeCommand
new_order_command = Core.new_order (record {
  command_sequence = 7;
  account_id = 1;
  client_order_id = 2 ^ 63 + 5;
  instrument_id = 300;
  side = sell;
  price = negsuc 41;
  quantity = 1000;
  order_type = limit;
  time_in_force = ioc;
})

abbrev trade_event : MarketData.Event
trade_event = trade (record {
  sequence_number = 9;
  timestamp_ns = 123456789;
  instrument_id = 5;
  price = pos 10050;
  quantity = 12;
  aggressor_side = sell;
})

abbrev rejected_message : OrderEntry.Message
rejected_message = rejected (record {
  account_id = 4;
  client_order_id = 77;
  instrument_id = 2;
  reason = insufficient_funds;
})

decode_journal_frame-encode_command_example :
    decode_journal_frame (encode_command new_order_command [] ++ (255 ∷ []))
    ≡ ok (command new_order_command)
decode_journal_frame-encode_command_example =
    decode_journal_frame-encode_command new_order_command (255 ∷ []) (record {
      sequence_fits = omega arith;
      account_fits = omega arith;
      client_order_fits = omega arith;
      instrument_fits = omega arith;
      price_fits = neg_fits (omega arith);
      quantity_fits = omega arith;
    })

decode_event-encode_event_example :
    decode_event (encode_event trade_event [] ++ (1 ∷ [])) ≡ ok trade_event
decode_event-encode_event_example = decode_event-encode_event trade_event (1 ∷ []) (record {
  sequence_number_fits = omega arith;
  timestamp_ns_fits = omega arith;
  instrument_id_fits = omega arith;
  price_fits = pos_fits (omega arith);
  quantity_fits = omega arith;
})

decode_message-encode_message_example :
    decode_message (encode_message rejected_message [] ++ []) ≡ ok rejected_message
decode_message-encode_message_example = decode_message-encode_message rejected_message [] (record {
  account_id_fits = omega arith;
  client_order_id_fits = omega arith;
  instrument_id_fits = omega arith;
})

rejected_bytes :
    encode_message rejected_message []
    ≡ 11 ∷ 0 ∷ 21 ∷ 0 ∷ 0 ∷ 0 ∷ 0 ∷ 0 ∷ 0 ∷ 0 ∷ 4 ∷ 0 ∷ 0 ∷ 0 ∷ 0 ∷ 0 ∷ 0 ∷ 0 ∷ 77 ∷ 0 ∷ 0 ∷ 0 ∷ 2
      ∷ 9 ∷ []
unfolding encode_message put_u8 put_u16 put_u32 put_u64
rejected_bytes = refl

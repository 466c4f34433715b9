-- ===== src/Feed/Packet/Tests.antt =====
-- A packet of two events.
use cpp_projects.Base.{ℕ, ◌≡◌, List, [], ◌∷◌, map, arith}
use cpp_projects.Base.Result.{ok}
use cpp_projects.Feed.Packet.{pack_frames, unpack_frames}
use cpp_projects.Feed.Packet.RoundTrip.{header_of_packet, unpack_frames-pack_frames}
use cpp_projects.Wire.Bytes.{put_u8, put_u16, put_u32, put_u64}
use cpp_projects.Wire.MarketData.{Event, encode_event, clear_book}

abbrev clear : ℕ → Event
clear instrument_id =
    clear_book
      (record { sequence_number = 9; timestamp_ns = 123456789; instrument_id = instrument_id })

abbrev events : List Event
events = clear 3 ∷ clear 4 ∷ []

unpack_frames-pack_frames_example :
    unpack_frames (pack_frames 77 events)
    ≡ ok (record { header = header_of_packet 77 events; frames = map ok events })
unfolding encode_event put_u8 put_u16 put_u32 put_u64
unpack_frames-pack_frames_example =
    unpack_frames-pack_frames 77 events (omega arith) (omega arith) (omega arith) (omega arith) (
      record {
        sequence_number_fits = omega arith;
        timestamp_ns_fits = omega arith;
        instrument_id_fits = omega arith;
      },
      (
        record {
          sequence_number_fits = omega arith;
          timestamp_ns_fits = omega arith;
          instrument_id_fits = omega arith;
        },
        tt,
      ),
    )

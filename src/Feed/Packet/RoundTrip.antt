-- ===== src/Feed/Packet/RoundTrip.antt =====
-- The round trip of packets: unpack_frames on what pack_frames writes.
use cpp_projects.Base.{
  ℕ, ◌+◌, ◌^◌, ◌<◌, ◌≤◌, ◌≡◌, ◌%◌, ◌==◌, false, not, refl, sym, ap, ◌∙◌, some, List, [], ◌∷◌, ◌++◌,
  append-nil, append_assoc, map, arith, ltb, length, length-append,
}
use cpp_projects.Base.Result.{ok}
use cpp_projects.Wire.Bytes.{
  big_endian, put_u8, put_u16, put_u32, put_u64, put_i64, get_u16-bytes, get_u32-bytes,
  get_u64-bytes, >>=-some,
}
use cpp_projects.Wire.Frame.{take-append_length, drop-append_length, if-long}
use cpp_projects.Wire.MarketData.{
  Event, add_order, cancel_order, modify_order, trade, clear_book, encode_event, decode_event,
}
use cpp_projects.Wire.MarketDataPayloads.{FitsEvent}
use cpp_projects.Wire.MarketDataRoundTrip.{decode_event-encode_event, frame_of}
use cpp_projects.Feed.Packet.{
  PacketHeader, encode_events, put_packet_header, pack_frames, packet_fields, unpack_loop,
  unpack_body, fields_or_error, unpack_frames, packet_magic, packet_version,
}

encode_event-append : (e : Event) (out : List ℕ) → encode_event e out ≡ out ++ encode_event e []
unfolding encode_event put_u8 put_u16 put_u32 put_u64 put_i64
encode_event-append (add_order m) out = simp (append_assoc)
encode_event-append (cancel_order m) out = simp (append_assoc)
encode_event-append (modify_order m) out = simp (append_assoc)
encode_event-append (trade m) out = simp (append_assoc)
encode_event-append (clear_book m) out = simp (append_assoc)

abbrev pub FitEvents : List Event → Type 0
FitEvents [] = Unit
FitEvents (e ∷ es) = FitsEvent e × FitEvents es

-- The frames one behind the other.
abbrev pub frames_of : List Event → List ℕ
frames_of [] = []
frames_of (e ∷ es) = encode_event e [] ++ frames_of es

encode_events-append : (es : List Event) (out : List ℕ) → encode_events es out ≡ out ++ frames_of es
encode_events-append [] out = sym (append-nil out)
encode_events-append (e ∷ es) out =
    encode_events-append es (encode_event e out)
    ∙ ap (λ b. b ++ frames_of es) (encode_event-append e out)
    ∙ append_assoc out (encode_event e []) (frames_of es)

unpack_loop-frames_of :
    (es : List Event) → FitEvents es → unpack_loop (length es) (frames_of es) ≡ ok (map ok es, [])
unfolding unpack_loop
unpack_loop-frames_of [] w = refl
unpack_loop-frames_of (e ∷ es) w =
    let (h, decodes, size) = frame_of e w.0 in
    let frame = encode_event e [] in
    let long : ltb (length (frame ++ frames_of es)) (20 + h.payload_size) ≡ false =
      ground (arith, length-append frame (frames_of es)) in
    let body : decode_event frame ≡ ok e =
      ap decode_event (sym (append-nil frame)) ∙ decode_event-encode_event e [] w.0 in
    rw
      (
        unpack_loop,
        decodes (frames_of es),
        long,
        take-append_length (20 + h.payload_size) frame (frames_of es) (sym size),
        drop-append_length (20 + h.payload_size) frame (frames_of es) (sym size),
        body,
        unpack_loop-frames_of es w.1,
      )
      refl

abbrev pub header_of_packet : ℕ → List Event → PacketHeader
header_of_packet packet_sequence es = record {
  magic = packet_magic;
  version = packet_version;
  frame_count = length es;
  packet_sequence = packet_sequence;
  payload_length = length (frames_of es);
}

abbrev raw_header : ℕ → ℕ → ℕ → List ℕ
raw_header n packet_sequence m =
    big_endian 4 packet_magic
    ++ (big_endian 2 packet_version
        ++ (big_endian 2 n ++ (big_endian 8 packet_sequence ++ (big_endian 4 m ++ []))))

packet_fields-raw :
    (n packet_sequence m : ℕ)
    → n < 2 ^ 16
    → packet_sequence < 2 ^ 64
    → m < 2 ^ 32
    → packet_fields (raw_header n packet_sequence m)
      ≡ some (
        record {
          magic = packet_magic;
          version = packet_version;
          frame_count = n;
          packet_sequence = packet_sequence;
          payload_length = m;
        },
        [],
      )
packet_fields-raw n packet_sequence m hn hs hm =
    >>=-some _ _ (get_u32-bytes packet_magic _ (omega arith)) (
      >>=-some _ _ (get_u16-bytes packet_version _ (omega arith)) (
        >>=-some _ _ (get_u16-bytes n _ hn) (
          >>=-some _ _ (get_u64-bytes packet_sequence _ hs)
            (>>=-some _ _ (get_u32-bytes m [] hm) refl))))

put_packet_header-raw :
    (n packet_sequence m : ℕ)
    → n < 2 ^ 16
    → m < 2 ^ 32
    → put_packet_header n packet_sequence m ≡ raw_header n packet_sequence m
unfolding put_packet_header put_u16 put_u32 put_u64
put_packet_header-raw n packet_sequence m hn hm =
    let small_n : n % 2 ^ 16 ≡ n = omega arith in
    let small_m : m % 2 ^ 32 ≡ m = omega arith in
    ap (λ k. raw_header k packet_sequence (m % 2 ^ 32)) small_n
    ∙ ap (λ k. raw_header n packet_sequence k) small_m

unpack_body-frames_of :
    (packet_sequence : ℕ) (es : List Event)
    → 1 ≤ length es
    → FitEvents es
    → unpack_body (frames_of es) (header_of_packet packet_sequence es)
      ≡ ok (record { header = header_of_packet packet_sequence es; frames = map ok es })
unpack_body-frames_of packet_sequence es some_frames w =
    let counted : (length es == 0) ≡ false = ground arith in
    let measured : not (length (frames_of es) == length (frames_of es)) ≡ false = ground arith in
    rw (counted, measured, unpack_loop-frames_of es w) refl

-- A packet of at least one event and fewer than 2 ^ 16, whose values are in the ranges of their C++
-- types and whose frames are fewer than 2 ^ 32 bytes, is unpacked as it was packed.
pub unpack_frames-pack_frames :
    (packet_sequence : ℕ) (es : List Event)
    → packet_sequence < 2 ^ 64
    → 1 ≤ length es
    → length es < 2 ^ 16
    → length (frames_of es) < 2 ^ 32
    → FitEvents es
    → unpack_frames (pack_frames packet_sequence es)
      ≡ ok (record { header = header_of_packet packet_sequence es; frames = map ok es })
unfolding unpack_frames pack_frames
unpack_frames-pack_frames packet_sequence es hs some_frames few short w =
    let payload : encode_events es [] ≡ frames_of es = encode_events-append es [] in
    let header = raw_header (length es) packet_sequence (length (frames_of es)) in
    let whole : pack_frames packet_sequence es ≡ header ++ frames_of es =
      ap (λ b. put_packet_header (length es) packet_sequence (length b) ++ b) payload
      ∙ ap (λ h. h ++ frames_of es)
          (put_packet_header-raw (length es) packet_sequence (length (frames_of es)) few short) in
    ap unpack_frames whole
    ∙ if-long (length (header ++ frames_of es)) 20 _ _ (omega arith)
    ∙ ap (λ o. fields_or_error o (frames_of es))
        (packet_fields-raw (length es) packet_sequence (length (frames_of es)) few hs short)
    ∙ unpack_body-frames_of packet_sequence es some_frames w

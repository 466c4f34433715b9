-- ===== src/Feed/Packet.antt =====
-- mdh/include/net/packet.hpp and mdh/src/net/packet.cpp: market-data frames packed in a datagram.
use cpp_projects.Base.{
  ℕ, zero, suc, ◌+◌, ◌*◌, ◌^◌, ◌%◌, Bool, true, false, not, Option, none, some, List, [], ◌∷◌, ◌++◌,
  ltb, ◌==◌, length, take, drop, if◌then◌else◌,
}
use cpp_projects.Base.Result.{Result, ok, err}
use cpp_projects.Wire.Bytes.{
  put_u16, put_u32, put_u64, get_u16, get_u32, get_u64, Parser, ◌>>=◌, pure,
}
use cpp_projects.Wire.MarketData.{
  Event, Header, DecodeError, encode_event, decode_header, decode_event,
}
mod RoundTrip
mod Tests

abbrev pub packet_magic : ℕ
packet_magic = 1296320561

abbrev pub packet_version : ℕ
packet_version = 1

pub record PacketHeader : Type 0 where
  pub magic : ℕ
  pub version : ℕ
  pub frame_count : ℕ
  pub packet_sequence : ℕ
  pub payload_length : ℕ

pub data PacketError : Type 0 where
  truncated_packet_header invalid_magic invalid_version zero_frame_count : PacketError
  payload_length_mismatch inner_frame_header_invalid frame_count_mismatch : PacketError

pub record UnpackedPacket : Type 0 where
  pub header : PacketHeader
  pub frames : List (Result DecodeError Event)

abbrev pub encode_events : List Event → List ℕ → List ℕ
encode_events [] payload = payload
encode_events (event ∷ events) payload = encode_events events (encode_event event payload)

unfoldable pub put_packet_header : ℕ → ℕ → ℕ → List ℕ
unfolding put_u16 put_u32 put_u64
put_packet_header frame_count packet_sequence payload_length =
    put_u32
      (put_u64 (put_u16 (put_u16 (put_u32 [] packet_magic) packet_version) (frame_count % 2 ^ 16))
        packet_sequence)
      (payload_length % 2 ^ 32)

unfoldable pub pack_frames : ℕ → List Event → List ℕ
unfolding put_packet_header encode_event
pack_frames packet_sequence events =
    let payload = encode_events events [] in
    put_packet_header (length events) packet_sequence (length payload) ++ payload

abbrev pub packet_fields : Parser PacketHeader
packet_fields = get_u32 >>= λ magic. get_u16 >>= λ version. get_u16 >>= λ frame_count.
    get_u64 >>= λ packet_sequence. get_u32 >>= λ payload_length. pure (record {
      magic = magic;
      version = version;
      frame_count = frame_count;
      packet_sequence = packet_sequence;
      payload_length = payload_length;
    })

abbrev pub with_frame :
    Result DecodeError Event
    → Result PacketError (List (Result DecodeError Event) × List ℕ)
    → Result PacketError (List (Result DecodeError Event) × List ℕ)
with_frame frame (err e) = err e
with_frame frame (ok (frames, rest)) = ok (frame ∷ frames, rest)

-- The loop over the frames: what they decode to, and the bytes behind the last.
unfoldable pub unpack_loop :
    ℕ → List ℕ → Result PacketError (List (Result DecodeError Event) × List ℕ)
unfolding decode_header decode_event
unpack_loop zero rest = ok ([], rest)
unpack_loop (suc frame_count) rest = elim (decode_header rest) [
  | err e ↦ err inner_frame_header_invalid
  | ok header ↦
      let frame_len = 20 + header.payload_size in
      let later = unpack_loop frame_count (drop frame_len rest) in
      if ltb (length rest) frame_len
      then err inner_frame_header_invalid
      else with_frame (decode_event (take frame_len rest)) later
]

abbrev pub all_used :
    PacketHeader
    → Result PacketError (List (Result DecodeError Event) × List ℕ)
    → Result PacketError UnpackedPacket
all_used header (err e) = err e
all_used header (ok (frames, [])) = ok (record { header = header; frames = frames })
all_used header (ok (frames, byte ∷ rest)) = err frame_count_mismatch

-- The tests on a header that was read whole, then the frames.
abbrev pub unpack_body : List ℕ → PacketHeader → Result PacketError UnpackedPacket
unpack_body remaining header =
    let frames = unpack_loop header.frame_count remaining in
    if not (header.magic == packet_magic)
    then err invalid_magic
    else if not (header.version == packet_version)
    then err invalid_version
    else if header.frame_count == 0
    then err zero_frame_count
    else if not (length remaining == header.payload_length)
    then err payload_length_mismatch
    else all_used header frames

abbrev pub fields_or_error :
    Option (PacketHeader × List ℕ) → List ℕ → Result PacketError UnpackedPacket
fields_or_error none remaining = err truncated_packet_header
fields_or_error (some (header, left)) remaining = unpack_body remaining header

unfoldable pub unpack_frames : List ℕ → Result PacketError UnpackedPacket
unfolding unpack_loop
unpack_frames datagram =
    if ltb (length datagram) 20
    then err truncated_packet_header
    else fields_or_error (packet_fields (take 20 datagram)) (drop 20 datagram)

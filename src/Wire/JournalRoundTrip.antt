-- ===== src/Wire/JournalRoundTrip.antt =====
-- The round trip of the command journal: decode_journal_frame on what encode_command writes.
use cpp_projects.Base.{ℕ, ◌^◌, ◌<◌, ◌≡◌, refl, ap, ◌∙◌, List, [], ◌++◌, append_assoc, arith}
use cpp_projects.Base.Result.{ok}
use cpp_projects.Exchange.Core.{ExchangeCommand, new_order, cancel_order, replace_order}
use cpp_projects.Wire.Bytes.{
  put_u8, put_u16, put_u32, put_u64, put_i64, result_or, get_u32-bytes, >>=-some,
}
use cpp_projects.Wire.Frame.{IsFrame, decode-IsFrame}
use cpp_projects.Wire.Journal.{
  CommandHeader, JournalFrame, command, new_order_type, cancel_order_type, replace_order_type,
  register_instrument_type, encode_command, encode_register_instrument, register_instrument,
  put_new_order, put_cancel_order, put_replace_order, decode_payload, journal_format,
  decode_journal_frame, truncated_payload,
}
use cpp_projects.Wire.JournalPayloads.{
  FitsCommand, header_of, header_bytes, header_bytes-IsFrame, new_order-decodes,
  cancel_order-decodes, replace_order-decodes,
}

-- The two parts of an encoded frame.
abbrev pub HasParts : List ℕ → JournalFrame → Type 0
HasParts bytes frame =
    (header : List ℕ) × ((payload : List ℕ) × ((h : CommandHeader) × (bytes ≡ header ++ payload)
        × IsFrame journal_format header payload h frame))

decode-HasParts :
    (bytes rest : List ℕ) (frame : JournalFrame)
    → HasParts bytes frame
    → decode_journal_frame (bytes ++ rest) ≡ ok frame
unfolding decode_journal_frame
decode-HasParts bytes rest frame (header, (payload, (h, parts, w))) =
    ap (λ b. decode_journal_frame (b ++ rest)) parts
    ∙ ap decode_journal_frame (append_assoc header payload rest)
    ∙ decode-IsFrame journal_format header payload rest w

pub command-IsFrame :
    (c : ExchangeCommand) → FitsCommand c → HasParts (encode_command c []) (command c)
unfolding encode_command put_u8 put_u16 put_u32 put_u64 put_i64
command-IsFrame (new_order c) w = (
  header_bytes new_order_type c.command_sequence,
  (
    put_new_order [] c,
    (
      header_of new_order_type c.command_sequence,
      refl,
      header_bytes-IsFrame new_order_type c.command_sequence _ w.sequence_fits refl
          (new_order-decodes c w),
    ),
  ),
)
command-IsFrame (cancel_order c) w = (
  header_bytes cancel_order_type c.command_sequence,
  (
    put_cancel_order [] c,
    (
      header_of cancel_order_type c.command_sequence,
      refl,
      header_bytes-IsFrame cancel_order_type c.command_sequence _ w.sequence_fits refl
          (cancel_order-decodes c w),
    ),
  ),
)
command-IsFrame (replace_order c) w = (
  header_bytes replace_order_type c.command_sequence,
  (
    put_replace_order [] c,
    (
      header_of replace_order_type c.command_sequence,
      refl,
      header_bytes-IsFrame replace_order_type c.command_sequence _ w.sequence_fits refl
          (replace_order-decodes c w),
    ),
  ),
)

-- A command whose values are in the ranges of their C++ types is what decode_journal_frame gives on
-- the bytes that encode_command appends for it, whatever bytes follow them.
pub decode_journal_frame-encode_command :
    (c : ExchangeCommand) (rest : List ℕ)
    → FitsCommand c
    → decode_journal_frame (encode_command c [] ++ rest) ≡ ok (command c)
decode_journal_frame-encode_command c rest w =
    decode-HasParts (encode_command c []) rest (command c) (command-IsFrame c w)

register_instrument-decodes :
    (instrument_id : ℕ)
    → instrument_id < 2 ^ 32
    → decode_payload (header_of register_instrument_type 0) (put_u32 [] instrument_id)
      ≡ ok (register_instrument instrument_id)
unfolding put_u32
register_instrument-decodes instrument_id h =
    ap (result_or truncated_payload) (>>=-some _ _ (get_u32-bytes instrument_id [] h) refl)

pub register_instrument-IsFrame :
    (instrument_id : ℕ)
    → instrument_id < 2 ^ 32
    → HasParts (encode_register_instrument instrument_id []) (register_instrument instrument_id)
unfolding encode_register_instrument put_u8 put_u16 put_u32 put_u64
register_instrument-IsFrame instrument_id h = (
  header_bytes register_instrument_type 0,
  (
    put_u32 [] instrument_id,
    (
      header_of register_instrument_type 0,
      refl,
      header_bytes-IsFrame register_instrument_type 0 _ (omega arith) refl
          (register_instrument-decodes instrument_id h),
    ),
  ),
)

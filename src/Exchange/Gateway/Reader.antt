-- ===== src/Exchange/Gateway/Reader.antt =====
-- mdh/src/exchange/gateway/order_entry_gateway.cpp: connection_reader_loop, from bytes to commands.
use cpp_projects.Base.{
  ℕ, zero, suc, ◌+◌, Option, none, some, List, [], ◌∷◌, ◌++◌, ltb, ◌==◌, length, take, drop,
  if◌then◌else◌,
}
use cpp_projects.Base.Result.{Result, ok, err}
use cpp_projects.Exchange.Core.{ExchangeCommand}
use cpp_projects.Exchange.Gateway.{OrderEntryGateway, connection, put_connection}
use cpp_projects.Exchange.Gateway.Reports.{message_account, to_command}
use cpp_projects.Exchange.Gateway.Sessions.{
  bind_session, reject_account_mismatch, claim_order_ownership,
}
use cpp_projects.Wire.OrderEntry.{Message, DecodeError, decode_header, decode_message}

-- A frame that does not decode is dropped.
abbrev pub decoded : Result DecodeError Message → Option Message
decoded (err e) = none
decoded (ok message) = some message

-- The first frame of the buffer, decoded, and what is behind it; `none` where the loop waits for more.
unfoldable pub next_frame : List ℕ → Option (Option Message × List ℕ)
next_frame buffer = elim (decode_header buffer) [
  | err e ↦ none
  | ok header ↦
      let frame_size = 3 + header.payload_size in
      if ltb (length buffer) frame_size
      then none
      else some (decoded (decode_message (take frame_size buffer)), drop frame_size buffer)
]

abbrev pub with_message : Option Message → List Message × List ℕ → List Message × List ℕ
with_message none rest = rest
with_message (some message) (messages, left) = (message ∷ messages, left)

-- The inner loop: the messages of the whole frames, and what is left. Every frame takes bytes, so as
-- many rounds as there are bytes are enough.
unfoldable pub drain : ℕ → List ℕ → List Message × List ℕ
unfolding next_frame
drain zero buffer = ([], buffer)
drain (suc fuel) buffer = elim (next_frame buffer) [
  | none ↦ ([], buffer)
  | some (message, rest) ↦ with_message message (drain fuel rest)
]

unfoldable pub submit_message :
    OrderEntryGateway → ℕ → Message → ExchangeCommand → OrderEntryGateway
unfolding claim_order_ownership
submit_message g c message command =
    let g' = claim_order_ownership g c (message_account message) message in
    record g' { submitted = command ∷ g'.submitted }

-- What becomes of one decoded message.
unfoldable pub handle_message : OrderEntryGateway → ℕ → Message → OrderEntryGateway
unfolding to_command submit_message bind_session reject_account_mismatch
handle_message g c message = elim (to_command message) [
  | none ↦ g
  | some command ↦ elim (connection g c).account_id [
    | none ↦ submit_message (bind_session g c (message_account message)) c message command
    | some account_id ↦
        if account_id == message_account message
        then submit_message g c message command
        else reject_account_mismatch g c command
  ]
]

abbrev pub handle_messages : OrderEntryGateway → ℕ → List Message → OrderEntryGateway
handle_messages g c [] = g
handle_messages g c (m ∷ ms) = handle_messages (handle_message g c m) c ms

-- The bytes of one read.
unfoldable pub receive : OrderEntryGateway → ℕ → List ℕ → OrderEntryGateway
unfolding drain handle_message
receive g c chunk =
    let buffer = (connection g c).read_buffer ++ chunk in
    let (messages, left) = drain (length buffer) buffer in
    handle_messages (put_connection g c (record (connection g c) { read_buffer = left })) c messages

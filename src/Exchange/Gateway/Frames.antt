-- ===== src/Exchange/Gateway/Frames.antt =====
-- mdh/src/exchange/gateway/order_entry_gateway.cpp, connection_reader_loop: a stream that is cut into
-- reads, and a type byte that is not known.
use cpp_projects.Base.{
  ℕ, zero, suc, ◌+◌, ◌≤◌, ◌≡◌, ◌⊎◌, refl, sym, ap, ◌∙◌, false, Bool-cases, inl, inr, Option, none,
  some, List, [], ◌++◌, arith, ltb, length, take, drop, length-append, length-drop,
}
use cpp_projects.Base.Appends.{take-append_left, drop-append_left}
use cpp_projects.Base.Result.{Result-cases, ok, err}
use cpp_projects.Exchange.Gateway.Reader.{decoded, next_frame, with_message, drain}
use cpp_projects.Wire.OrderEntry.{
  Message, Header, decode_header, decode_message, invalid_message_type, truncated_header,
}

decode_header-append :
    (buffer chunk : List ℕ)
    → 3 ≤ length buffer
    → decode_header (buffer ++ chunk) ≡ decode_header buffer
unfolding decode_header
decode_header-append buffer chunk h =
    let long : ltb (length buffer) 3 ≡ false = ground arith in
    let longer : ltb (length (buffer ++ chunk)) 3 ≡ false =
      ground (arith, length-append buffer chunk) in
    rw (long, longer, take-append_left 3 buffer chunk h) refl

-- The buffer begins with a whole frame of `n` bytes.
abbrev IsWhole : List ℕ → ℕ → Type 0
IsWhole buffer n =
    (header : Header) × (decode_header buffer ≡ ok header)
    × (n ≡ 3 + header.payload_size)
    × (n ≤ length buffer)

IsWhole-bounds : (buffer : List ℕ) (n : ℕ) → IsWhole buffer n → (3 ≤ n) × (n ≤ length buffer)
IsWhole-bounds buffer n (header, good, size, fits) = (omega arith, fits)

next_frame_cases : (buffer : List ℕ) → (next_frame buffer ≡ none) ⊎ ((n : ℕ) × IsWhole buffer n)
unfolding next_frame
next_frame_cases buffer = elim (Result-cases (decode_header buffer)) [
  | inl (e, bad) ↦ inl (rw (next_frame, bad) refl)
  | inr (header, good) ↦ elim (Bool-cases (ltb (length buffer) (3 + header.payload_size))) [
    | inl short ↦ inl (rw (next_frame, good, short) refl)
    | inr whole ↦ inr (3 + header.payload_size, (header, good, refl, ground (arith, whole)))
  ]
]

next_frame-whole :
    (buffer : List ℕ) (n : ℕ)
    → IsWhole buffer n
    → next_frame buffer ≡ some (decoded (decode_message (take n buffer)), drop n buffer)
unfolding next_frame
next_frame-whole buffer n (header, good, size, fits) =
    let whole : ltb (length buffer) (3 + header.payload_size) ≡ false = ground arith in
    rw (size, next_frame, good, whole) refl

IsWhole-append : (buffer chunk : List ℕ) (n : ℕ) → IsWhole buffer n → IsWhole (buffer ++ chunk) n
IsWhole-append buffer chunk n (header, good, size, fits) = (
  header,
  decode_header-append buffer chunk (omega arith) ∙ good,
  size,
  omega (arith, length-append buffer chunk),
)

drain-none :
    (fuel : ℕ) (buffer : List ℕ) → next_frame buffer ≡ none → drain fuel buffer ≡ ([], buffer)
unfolding drain
drain-none zero buffer h = refl
drain-none (suc fuel) buffer h = rw (drain, h) refl

drain-whole :
    (fuel : ℕ) (buffer : List ℕ) (n : ℕ)
    → IsWhole buffer n
    → drain (suc fuel) buffer
      ≡ with_message (decoded (decode_message (take n buffer))) (drain fuel (drop n buffer))
unfolding drain
drain-whole fuel buffer n h = rw (drain, next_frame-whole buffer n h) refl

-- More rounds than bytes change nothing.
drain-fuel :
    (k j : ℕ) (buffer : List ℕ)
    → length buffer ≤ k
    → length buffer ≤ j
    → drain k buffer ≡ drain j buffer
drain-fuel zero j buffer hk hj = elim (next_frame_cases buffer) [
  | inl waits ↦ drain-none zero buffer waits ∙ sym (drain-none j buffer waits)
  | inr (n, whole) ↦ absurd (omega (arith, IsWhole-bounds buffer n whole))
]
drain-fuel (suc k) zero buffer hk hj = elim (next_frame_cases buffer) [
  | inl waits ↦ drain-none (suc k) buffer waits ∙ sym (drain-none zero buffer waits)
  | inr (n, whole) ↦ absurd (omega (arith, IsWhole-bounds buffer n whole))
]
drain-fuel (suc k) (suc j) buffer hk hj = elim (next_frame_cases buffer) [
  | inl waits ↦ drain-none (suc k) buffer waits ∙ sym (drain-none (suc j) buffer waits)
  | inr (n, whole) ↦
      let bounds = IsWhole-bounds buffer n whole in
      let shorter = length-drop n buffer in
      drain-whole k buffer n whole
      ∙ ap (with_message _) (drain-fuel k j (drop n buffer) (omega arith) (omega arith))
      ∙ sym (drain-whole j buffer n whole)
]

-- The messages before those of the rest.
abbrev pub after : List Message → List Message × List ℕ → List Message × List ℕ
after ms rest = (ms ++ rest.0, rest.1)

with_message-after :
    (m : Option Message) (r : List Message × List ℕ) (rest : List Message × List ℕ)
    → with_message m (after r.0 rest) ≡ after (with_message m r).0 rest
with_message-after none r rest = refl
with_message-after (some m) r rest = refl

left-with_message : (m : Option Message) (r : List Message × List ℕ) → (with_message m r).1 ≡ r.1
left-with_message none r = refl
left-with_message (some m) r = refl

abbrev drain_all : List ℕ → List Message × List ℕ
drain_all buffer = drain (length buffer) buffer

drain_all-whole :
    (buffer : List ℕ) (n : ℕ)
    → IsWhole buffer n
    → drain_all buffer
      ≡ with_message (decoded (decode_message (take n buffer))) (drain_all (drop n buffer))
drain_all-whole buffer n whole =
    let bounds = IsWhole-bounds buffer n whole in
    drain-fuel (length buffer) (suc (length buffer)) buffer (omega arith) (omega arith)
    ∙ drain-whole (length buffer) buffer n whole
    ∙ ap (with_message _) (
        drain-fuel (length buffer) _ (drop n buffer) (omega (arith, length-drop n buffer))
          (omega arith))

abbrev Segments : List ℕ → List ℕ → Type 0
Segments buffer chunk =
    drain_all (buffer ++ chunk)
    ≡ after (drain_all buffer).0 (drain_all ((drain_all buffer).1 ++ chunk))

Segments-whole :
    (buffer chunk : List ℕ) (n : ℕ)
    → IsWhole buffer n
    → Segments (drop n buffer) chunk
    → Segments buffer chunk
Segments-whole buffer chunk n whole later =
    let m = decoded (decode_message (take n buffer)) in
    let rest = drain_all (drop n buffer) in
    let fits = (IsWhole-bounds buffer n whole).1 in
    drain_all-whole (buffer ++ chunk) n (IsWhole-append buffer chunk n whole)
    ∙ ap (λ b. with_message (decoded (decode_message b)) (drain_all (drop n (buffer ++ chunk))))
        (take-append_left n buffer chunk fits)
    ∙ ap (λ b. with_message m (drain_all b)) (drop-append_left n buffer chunk fits)
    ∙ ap (with_message m) later
    ∙ with_message-after m rest (drain_all (rest.1 ++ chunk))
    ∙ ap (λ left. after (with_message m rest).0 (drain_all (left ++ chunk)))
        (sym (left-with_message m rest))
    ∙ ap (λ r. after r.0 (drain_all (r.1 ++ chunk))) (sym (drain_all-whole buffer n whole))

Segments-waits : (buffer chunk : List ℕ) → next_frame buffer ≡ none → Segments buffer chunk
Segments-waits buffer chunk waits = rw (drain-none (length buffer) buffer waits) refl

segments : (fuel : ℕ) (buffer chunk : List ℕ) → length buffer ≤ fuel → Segments buffer chunk
segments zero buffer chunk h = elim (next_frame_cases buffer) [
  | inl waits ↦ Segments-waits buffer chunk waits
  | inr (n, whole) ↦ absurd (omega (arith, IsWhole-bounds buffer n whole))
]
segments (suc fuel) buffer chunk h = elim (next_frame_cases buffer) [
  | inl waits ↦ Segments-waits buffer chunk waits
  | inr (n, whole) ↦
      let bounds = IsWhole-bounds buffer n whole in
      let shorter = length-drop n buffer in
      Segments-whole buffer chunk n whole (segments fuel (drop n buffer) chunk (omega arith))
]

-- The messages that the loop gets from a buffer and the bytes of a later read are those that it gets
-- from the buffer alone, then those from what it left with the new bytes behind; so it does not matter
-- where the reads cut the stream.
pub drain-append :
    (buffer chunk : List ℕ)
    → let (messages, left) = drain (length buffer) buffer in
      drain (length (buffer ++ chunk)) (buffer ++ chunk)
      ≡ after messages (drain (length (left ++ chunk)) (left ++ chunk))
drain-append buffer chunk = segments (length buffer) buffer chunk (omega arith)

-- While the buffer begins with a type byte that is not known, no frame is taken from it, whatever
-- arrives behind.
pub unknown_type-drain :
    (buffer chunk : List ℕ)
    → decode_header buffer ≡ err invalid_message_type
    → drain (length (buffer ++ chunk)) (buffer ++ chunk) ≡ ([], buffer ++ chunk)
unfolding next_frame decode_header
unknown_type-drain buffer chunk bad = elim (Bool-cases (ltb (length buffer) 3)) [
  | inl short ↦
      let truncated : decode_header buffer ≡ err truncated_header =
        rw (decode_header, short) refl in
      absurd cc
  | inr long ↦
      let same = decode_header-append buffer chunk (ground (arith, long)) ∙ bad in
      drain-none (length (buffer ++ chunk)) (buffer ++ chunk) (rw (next_frame, same) refl)
]

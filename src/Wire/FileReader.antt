-- ===== src/Wire/FileReader.antt =====
-- mdh/src/replay/event_file_reader.cpp and mdh/src/exchange/persistence/command_journal_reader.cpp: the next
-- frame of a file, which both read in the same way. A file is the bytes that are still to be read.
use cpp_projects.Base.{
  ℕ, ◌<◌, ◌≡◌, refl, sym, ap, ◌∙◌, false, Option, none, some, List, [], ◌++◌, append-nil, arith,
  ltb, ◌==◌, if◌then◌else◌, length, take, drop,
}
use cpp_projects.Base.Result.{Result, ok, err}
use cpp_projects.Wire.Frame.{
  Format, decode, IsFrame, decode-IsFrame, take-append_length, drop-append_length,
}

module _ {E H M : Type 0} (f : Format E H M) where
  -- The second read, behind a header.
  abbrev pub next_payload : List ℕ → List ℕ → H → Result E M × List ℕ
  next_payload header_bytes rest header =
      let payload = take (f.declared_size header) rest in
      if ltb (length payload) (f.declared_size header)
      then (err f.truncated, [])
      else (decode f (header_bytes ++ payload), drop (f.declared_size header) rest)

  abbrev pub next_body : List ℕ → List ℕ → Result E H → Result E M × List ℕ
  next_body header_bytes rest (err e) = (err e, rest)
  next_body header_bytes rest (ok header) = next_payload header_bytes rest header

  -- A frame or an error, with what is left of the file; `none` at its end.
  unfoldable pub next_frame : E → List ℕ → Option (Result E M × List ℕ)
  unfolding decode
  next_frame truncated_header file =
      let header_bytes = take f.header_size file in
      if length header_bytes == 0
      then none
      else if ltb (length header_bytes) f.header_size
      then some (err truncated_header, [])
      else some (next_body header_bytes (drop f.header_size file) (f.decode_header header_bytes))

  -- A whole frame at the front of the file.
  pub next_frame-IsFrame :
      (truncated_header : E) (header payload rest : List ℕ) {h : H} {m : M}
      → 0 < f.header_size
      → IsFrame f header payload h m
      → next_frame truncated_header (header ++ (payload ++ rest)) ≡ some (ok m, rest)
  unfolding next_frame
  next_frame-IsFrame truncated_header header payload rest {h} {m} positive w =
      let first : take f.header_size (header ++ (payload ++ rest)) ≡ header =
        take-append_length f.header_size header (payload ++ rest) w.header_length in
      let behind : drop f.header_size (header ++ (payload ++ rest)) ≡ payload ++ rest =
        drop-append_length f.header_size header (payload ++ rest) w.header_length in
      let second : take (f.declared_size h) (payload ++ rest) ≡ payload =
        take-append_length (f.declared_size h) payload rest w.payload_length in
      let last : drop (f.declared_size h) (payload ++ rest) ≡ rest =
        drop-append_length (f.declared_size h) payload rest w.payload_length in
      let some_bytes : (length header == 0) ≡ false = ground (arith, w.header_length, positive) in
      let enough : ltb (length header) f.header_size ≡ false = ground (arith, w.header_length) in
      let whole : ltb (length payload) (f.declared_size h) ≡ false =
        ground (arith, w.payload_length) in
      let decodes : f.decode_header header ≡ ok h =
        ap f.decode_header (sym (append-nil header)) ∙ w.header_decodes [] in
      let message : decode f (header ++ payload) ≡ ok m =
        ap (λ b. decode f (header ++ b)) (sym (append-nil payload))
        ∙ decode-IsFrame f header payload [] w in
      rw
        (
          next_frame, first, behind, some_bytes, enough, decodes, next_payload, second, whole, last,
          message,
        )
        refl

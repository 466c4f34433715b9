-- ===== src/Wire/Frame.antt =====
-- The shape that decode_journal_frame, decode_event and decode_message share: a fixed header, a
-- payload whose size the type fixes, and the bytes of the next frame behind it.
use cpp_projects.Base.{
  ℕ, zero, suc, ◌+◌, ◌≤◌, ◌≡◌, refl, false, List, [], ◌∷◌, ◌++◌, arith, ltb, ◌==◌, not,
  if◌then◌else◌, length, take, drop, length-append,
}
use cpp_projects.Base.Result.{Result, ok, err}

-- A format with errors `E`, headers `H` and messages `M`.
pub record Format (E H M : Type 0) : Type 0 where
  pub header_size : ℕ
  pub decode_header : List ℕ → Result E H
  pub declared_size : H → ℕ
  pub expected_size : H → ℕ
  pub decode_payload : H → List ℕ → Result E M
  pub invalid_size : E
  pub truncated : E

module _ {E H M : Type 0} (f : Format E H M) where
  unfoldable pub decode_body : List ℕ → H → Result E M
  decode_body bytes header =
      if not (f.declared_size header == f.expected_size header)
      then err f.invalid_size
      else if ltb (length bytes) (f.header_size + f.declared_size header)
      then err f.truncated
      else f.decode_payload header (take (f.declared_size header) (drop f.header_size bytes))

  unfoldable pub decode : List ℕ → Result E M
  unfolding decode_body
  decode bytes = elim (f.decode_header bytes) [
    | err e ↦ err e
    | ok header ↦ decode_body bytes header
  ]

module _ {ℓ} {A : Type ℓ} where
  pub take-append_length : (n : ℕ) (xs ys : List A) → length xs ≡ n → take n (xs ++ ys) ≡ xs
  take-append_length zero [] ys h = refl
  take-append_length zero (x ∷ xs) ys h = absurd (omega arith)
  take-append_length (suc n) [] ys h = absurd (omega arith)
  take-append_length (suc n) (x ∷ xs) ys h = rw (take-append_length n xs ys (omega arith)) refl

  pub drop-append_length : (n : ℕ) (xs ys : List A) → length xs ≡ n → drop n (xs ++ ys) ≡ ys
  drop-append_length zero [] ys h = refl
  drop-append_length zero (x ∷ xs) ys h = absurd (omega arith)
  drop-append_length (suc n) [] ys h = absurd (omega arith)
  drop-append_length (suc n) (x ∷ xs) ys h = drop-append_length n xs ys (omega arith)

same : (a b : ℕ) → a ≡ b → not (a == b) ≡ false
same a b h = ground arith

enough : (a b c : ℕ) → ltb (a + (b + c)) (a + b) ≡ false
enough a b c = ground arith

-- The test on the size of the input, passed.
pub if-long {ℓ} : {A : Type ℓ} (m k : ℕ) (x y : A) → k ≤ m → (if ltb m k then x else y) ≡ y
if-long m k x y h = ground arith

-- A header and a payload that the format's own parts decode make a frame that it decodes, whatever
-- follows.
module _ {E H M : Type 0} (f : Format E H M) where
  pub record IsFrame (header payload : List ℕ) (h : H) (m : M) : Type 0 where
    pub header_length : length header ≡ f.header_size
    pub payload_length : length payload ≡ f.declared_size h
    pub size_fits : f.declared_size h ≡ f.expected_size h
    pub header_decodes : (rest : List ℕ) → f.decode_header (header ++ rest) ≡ ok h
    pub payload_decodes : f.decode_payload h payload ≡ ok m

  pub decode-IsFrame :
      (header payload rest : List ℕ) {h : H} {m : M}
      → IsFrame header payload h m
      → decode f (header ++ (payload ++ rest)) ≡ ok m
  unfolding decode decode_body
  decode-IsFrame header payload rest {h} {m} w =
      rw (w.header_decodes (payload ++ rest), decode) body
    where
      size : not (f.declared_size h == f.expected_size h) ≡ false
      size = same (f.declared_size h) (f.expected_size h) w.size_fits

      long : ltb (length (header ++ (payload ++ rest))) (f.header_size + f.declared_size h) ≡ false
      long =
          rw
            (
              length-append header (payload ++ rest),
              length-append payload rest,
              w.header_length,
              w.payload_length,
            )
            (enough f.header_size (f.declared_size h) (length rest))

      body : decode_body f (header ++ (payload ++ rest)) h ≡ ok m
      body =
          rw
            (
              size,
              long,
              drop-append_length f.header_size header (payload ++ rest) w.header_length,
              take-append_length (f.declared_size h) payload rest w.payload_length,
            )
            w.payload_decodes

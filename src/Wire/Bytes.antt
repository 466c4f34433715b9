-- ===== src/Wire/Bytes.antt =====
-- mdh/include/common/byte_io.hpp: big-endian encoding, a byte at a time. A byte is a number below
-- 256, and a buffer or a span is the list of its bytes.
use cpp_projects.Base.{
  ℕ, zero, suc, ◌+◌, ◌*◌, ◌/◌, ◌%◌, ◌^◌, ◌<◌, ◌≡◌, ap, ◌∙◌, Option, none, some, List, [], ◌∷◌, ◌++◌,
  arith,
}
use cpp_projects.Base.Int.{ℤ}
use cpp_projects.Base.Result.{Result, err}
use cpp_projects.Base.Word.{to_u64, to_i64, IsI64, to_u64-lt, to_i64-to_u64}

-- The loop of put_u32 and put_u64: the low `n` bytes of `v`, the highest first.
abbrev pub big_endian : ℕ → ℕ → List ℕ
big_endian zero v = []
big_endian (suc n) v = (v / 256 ^ n) % 256 ∷ big_endian n v

unfoldable pub put_u8 : List ℕ → ℕ → List ℕ
put_u8 buf v = buf ++ big_endian 1 v

unfoldable pub put_u16 : List ℕ → ℕ → List ℕ
put_u16 buf v = buf ++ big_endian 2 v

unfoldable pub put_u32 : List ℕ → ℕ → List ℕ
put_u32 buf v = buf ++ big_endian 4 v

unfoldable pub put_u64 : List ℕ → ℕ → List ℕ
put_u64 buf v = buf ++ big_endian 8 v

unfoldable pub put_i64 : List ℕ → ℤ → List ℕ
unfolding put_u64
put_i64 buf v = put_u64 buf (to_u64 v)

-- A ByteReader is the bytes that it has left. A getter gives nothing where there are too few.
-- The loop runs over as many bytes as its word has, so nothing is shifted out.
abbrev pub read : ℕ → ℕ → List ℕ → Option (ℕ × List ℕ)
read zero acc bytes = some (acc, bytes)
read (suc n) acc [] = none
read (suc n) acc (b ∷ bytes) = read n (acc * 256 + b) bytes

unfoldable pub get_u8 : List ℕ → Option (ℕ × List ℕ)
get_u8 = read 1 0

unfoldable pub get_u16 : List ℕ → Option (ℕ × List ℕ)
get_u16 = read 2 0

unfoldable pub get_u32 : List ℕ → Option (ℕ × List ℕ)
get_u32 = read 4 0

unfoldable pub get_u64 : List ℕ → Option (ℕ × List ℕ)
get_u64 = read 8 0

-- The conversion static_cast<std::int64_t> of the word that get_u64 gave.
abbrev pub as_signed : Option (ℕ × List ℕ) → Option (ℤ × List ℕ)
as_signed none = none
as_signed (some (v, rest)) = some (to_i64 v, rest)

unfoldable pub get_i64 : List ℕ → Option (ℤ × List ℕ)
get_i64 bytes = as_signed (get_u64 bytes)

pub get_u64-bytes :
    (v : ℕ) (rest : List ℕ) → v < 2 ^ 64 → get_u64 (big_endian 8 v ++ rest) ≡ some (v, rest)
unfolding get_u64
get_u64-bytes v rest h = ground arith

pub get_u8-bytes :
    (v : ℕ) (rest : List ℕ) → v < 2 ^ 8 → get_u8 (big_endian 1 v ++ rest) ≡ some (v, rest)
unfolding get_u8
get_u8-bytes v rest h = ground arith

pub get_u16-bytes :
    (v : ℕ) (rest : List ℕ) → v < 2 ^ 16 → get_u16 (big_endian 2 v ++ rest) ≡ some (v, rest)
unfolding get_u16
get_u16-bytes v rest h = ground arith

pub get_u32-bytes :
    (v : ℕ) (rest : List ℕ) → v < 2 ^ 32 → get_u32 (big_endian 4 v ++ rest) ≡ some (v, rest)
unfolding get_u32
get_u32-bytes v rest h = ground arith

pub get_i64-bytes :
    (z : ℤ) (rest : List ℕ) → IsI64 z → get_i64 (big_endian 8 (to_u64 z) ++ rest) ≡ some (z, rest)
unfolding get_i64
get_i64-bytes z rest h =
    ap as_signed (get_u64-bytes (to_u64 z) rest (to_u64-lt z))
    ∙ ap (λ w. some (w, rest)) (to_i64-to_u64 z h)

-- A chain of getters. The source makes every call and then gives up if one of them gave nothing;
-- here the first that gives nothing ends the chain, with the same outcome.
abbrev pub Parser : Type 0 → Type 0
Parser A = List ℕ → Option (A × List ℕ)

infixl 5 ◌>>=◌
unfoldable pub ◌>>=◌ : {A B : Type 0} → Parser A → (A → Parser B) → Parser B
◌>>=◌ p f bytes = elim (p bytes) [ none ↦ none | some (a, rest) ↦ f a rest ]

abbrev pub pure : {A : Type 0} → A → Parser A
pure a bytes = some (a, bytes)

-- What a chain of getters gives, or `error` where one of them gave nothing.
abbrev pub result_or : {E A : Type 0} → E → Option (Result E A × List ℕ) → Result E A
result_or error none = err error
result_or error (some (r, rest)) = r

module _ {A B : Type 0} (p : Parser A) (f : A → Parser B) where
  pub >>=-some :
      {bytes rest : List ℕ} {a : A} {r : Option (B × List ℕ)}
      → p bytes ≡ some (a, rest)
      → f a rest ≡ r
      → (p >>= f) bytes ≡ r
  unfolding ◌>>=◌
  >>=-some h k = ap (λ o. elim o [ none ↦ none | some (a, rest) ↦ f a rest ]) h ∙ k

-- ===== src/Exchange/Book/Bits.antt =====
-- mdh/src/exchange/matching/matching_book.cpp: bit helpers over 64-bit words.
use Prim.Native.Nat.{bit_and, bit_or}
use cpp_projects.Base.{ℕ, zero, suc, ◌+◌, ◌-◌, ◌*◌, ◌/◌, ◌%◌, ◌^◌, Bool, leb, ◌==◌, if◌then◌else◌}
use cpp_projects.Base.Word.{u64_mod}

abbrev pub word_max : ℕ
word_max = u64_mod - 1

-- `1ULL << bit`, for a bit below 64.
abbrev pub bit_at : ℕ → ℕ
bit_at bit = 2 ^ bit

-- `word & (1ULL << bit)`, as a test.
unfoldable pub is_set : ℕ → ℕ → Bool
is_set word bit = if bit_and word (bit_at bit) == 0 then Bool.false else Bool.true

-- `word |= 1ULL << bit` and `word &= ~(1ULL << bit)`.
unfoldable pub set_bit : ℕ → ℕ → ℕ
set_bit word bit = bit_or word (bit_at bit)

unfoldable pub clear_bit : ℕ → ℕ → ℕ
clear_bit word bit = bit_and word (word_max - bit_at bit)

-- std::countl_zero of a word of `width` bits: the zero bits above its highest one.
count_leading_zeros : ℕ → ℕ → ℕ
count_leading_zeros zero word = 0
count_leading_zeros (suc width) word =
    let rest = count_leading_zeros width word in if leb (2 ^ width) word then 0 else 1 + rest

-- std::countr_zero of a word of `width` bits.
count_trailing_zeros : ℕ → ℕ → ℕ
count_trailing_zeros zero word = 0
count_trailing_zeros (suc width) word =
    let rest = count_trailing_zeros width (word / 2) in if word % 2 == 1 then 0 else 1 + rest

unfoldable pub highest_bit : ℕ → ℕ
unfolding count_leading_zeros
highest_bit word = 63 - count_leading_zeros 64 word

unfoldable pub lowest_bit : ℕ → ℕ
unfolding count_trailing_zeros
lowest_bit word = count_trailing_zeros 64 word

-- Every bit strictly below, and strictly above, `bit` within a word.
unfoldable pub mask_below : ℕ → ℕ
mask_below bit = if bit == 0 then 0 else word_max / 2 ^ (64 - bit)

unfoldable pub mask_above : ℕ → ℕ
mask_above bit = if leb 63 bit then 0 else word_max * 2 ^ (bit + 1) % u64_mod

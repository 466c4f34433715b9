-- ===== src/Types.antt =====
-- mdh/include/common/types.hpp: the primitive types that the exchange and the feed share. Ids,
-- sequences, timestamps and quantities are unsigned words; a price is an int64_t, here an integer.
use cpp_projects.Base.{ℕ, Bool, true, false}
use cpp_projects.Base.Int.{ℤ}

abbrev pub Price : Type 0
Price = ℤ

abbrev pub Quantity : Type 0
Quantity = ℕ

pub data Side : Type 0 where
  buy sell : Side

-- `side == Side::Buy`.
abbrev pub is_buy : Side → Bool
is_buy buy = true
is_buy sell = false

abbrev pub opposite : Side → Side
opposite buy = sell
opposite sell = buy

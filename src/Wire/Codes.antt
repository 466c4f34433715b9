-- ===== src/Wire/Codes.antt =====
-- The one-byte codes of the enumerations on the wire: static_cast to std::uint8_t, and the is_valid_
-- tests of the decoders with the cast back.
use cpp_projects.Base.{ℕ, ◌^◌, ◌<◌, ◌≡◌, refl, Option, none, some, ◌==◌, if◌then◌else◌, arith}
use cpp_projects.Types.{Side, buy, sell}
use cpp_projects.Exchange.Core.{
  OrderType, limit, TimeInForce, gtc, ioc, fok, RejectReason, accepted, invalid_price,
  invalid_quantity, duplicate_order_id, unknown_order_id, invalid_instrument,
  insufficient_liquidity, invalid_replacement, internal_error, insufficient_funds,
  insufficient_position, order_too_large, account_mismatch,
}

abbrev pub side_code : Side → ℕ
side_code buy = 0
side_code sell = 1

-- is_valid_side and the cast.
abbrev pub side_of : ℕ → Option Side
side_of raw = if raw == 0 then some buy else if raw == 1 then some sell else none

abbrev pub order_type_code : OrderType → ℕ
order_type_code limit = 0

-- is_valid_order_type and the cast.
abbrev pub order_type_of : ℕ → Option OrderType
order_type_of raw = if raw == 0 then some limit else none

abbrev pub time_in_force_code : TimeInForce → ℕ
time_in_force_code gtc = 0
time_in_force_code ioc = 1
time_in_force_code fok = 2

-- is_valid_time_in_force and the cast.
abbrev pub time_in_force_of : ℕ → Option TimeInForce
time_in_force_of raw =
    if raw == 0
    then some gtc
    else if raw == 1
    then some ioc
    else if raw == 2
    then some fok
    else none

pub side_of-side_code : (s : Side) → side_of (side_code s) ≡ some s
side_of-side_code buy = refl
side_of-side_code sell = refl

pub order_type_of-order_type_code : (t : OrderType) → order_type_of (order_type_code t) ≡ some t
order_type_of-order_type_code limit = refl

pub time_in_force_of-time_in_force_code :
    (t : TimeInForce) → time_in_force_of (time_in_force_code t) ≡ some t
time_in_force_of-time_in_force_code gtc = refl
time_in_force_of-time_in_force_code ioc = refl
time_in_force_of-time_in_force_code fok = refl

pub side_code-lt : (s : Side) → side_code s < 2 ^ 8
side_code-lt buy = omega arith
side_code-lt sell = omega arith

pub order_type_code-lt : (t : OrderType) → order_type_code t < 2 ^ 8
order_type_code-lt limit = omega arith

pub time_in_force_code-lt : (t : TimeInForce) → time_in_force_code t < 2 ^ 8
time_in_force_code-lt gtc = omega arith
time_in_force_code-lt ioc = omega arith
time_in_force_code-lt fok = omega arith

abbrev pub reject_reason_code : RejectReason → ℕ
reject_reason_code accepted = 0
reject_reason_code invalid_price = 1
reject_reason_code invalid_quantity = 2
reject_reason_code duplicate_order_id = 3
reject_reason_code unknown_order_id = 4
reject_reason_code invalid_instrument = 5
reject_reason_code insufficient_liquidity = 6
reject_reason_code invalid_replacement = 7
reject_reason_code internal_error = 8
reject_reason_code insufficient_funds = 9
reject_reason_code insufficient_position = 10
reject_reason_code order_too_large = 11
reject_reason_code account_mismatch = 12

-- is_valid_reject_reason and the cast.
abbrev pub reject_reason_of : ℕ → Option RejectReason
reject_reason_of raw =
    if raw == 0
    then some accepted
    else if raw == 1
    then some invalid_price
    else if raw == 2
    then some invalid_quantity
    else if raw == 3
    then some duplicate_order_id
    else if raw == 4
    then some unknown_order_id
    else if raw == 5
    then some invalid_instrument
    else if raw == 6
    then some insufficient_liquidity
    else if raw == 7
    then some invalid_replacement
    else if raw == 8
    then some internal_error
    else if raw == 9
    then some insufficient_funds
    else if raw == 10
    then some insufficient_position
    else if raw == 11
    then some order_too_large
    else if raw == 12
    then some account_mismatch
    else none

pub reject_reason_of-reject_reason_code :
    (r : RejectReason) → reject_reason_of (reject_reason_code r) ≡ some r
reject_reason_of-reject_reason_code accepted = refl
reject_reason_of-reject_reason_code invalid_price = refl
reject_reason_of-reject_reason_code invalid_quantity = refl
reject_reason_of-reject_reason_code duplicate_order_id = refl
reject_reason_of-reject_reason_code unknown_order_id = refl
reject_reason_of-reject_reason_code invalid_instrument = refl
reject_reason_of-reject_reason_code insufficient_liquidity = refl
reject_reason_of-reject_reason_code invalid_replacement = refl
reject_reason_of-reject_reason_code internal_error = refl
reject_reason_of-reject_reason_code insufficient_funds = refl
reject_reason_of-reject_reason_code insufficient_position = refl
reject_reason_of-reject_reason_code order_too_large = refl
reject_reason_of-reject_reason_code account_mismatch = refl

pub reject_reason_code-lt : (r : RejectReason) → reject_reason_code r < 2 ^ 8
reject_reason_code-lt accepted = omega arith
reject_reason_code-lt invalid_price = omega arith
reject_reason_code-lt invalid_quantity = omega arith
reject_reason_code-lt duplicate_order_id = omega arith
reject_reason_code-lt unknown_order_id = omega arith
reject_reason_code-lt invalid_instrument = omega arith
reject_reason_code-lt insufficient_liquidity = omega arith
reject_reason_code-lt invalid_replacement = omega arith
reject_reason_code-lt internal_error = omega arith
reject_reason_code-lt insufficient_funds = omega arith
reject_reason_code-lt insufficient_position = omega arith
reject_reason_code-lt order_too_large = omega arith
reject_reason_code-lt account_mismatch = omega arith

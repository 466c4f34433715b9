-- ===== src/Exchange/Book/Tests.antt =====
-- Runs of the book of mdh/src/exchange/matching/matching_book.cpp on small inputs.
use cpp_projects.Base.{ℕ, ◌≡◌, refl, List, [], ◌∷◌, map}
use cpp_projects.Base.Int.{pos, ◌+ℤ◌, ◌-ℤ◌}
use cpp_projects.Base.Word.{to_u64}
use cpp_projects.Types.{Side, buy, sell}
use cpp_projects.Exchange.Core.{BookOrder, gtc}
use cpp_projects.Exchange.Book.Bits.{is_set, set_bit, highest_bit, mask_below}
use cpp_projects.Exchange.Book.Overflow
use cpp_projects.Exchange.Book.Index
use cpp_projects.Exchange.Book.{MatchingBook, create, add, all_of}

abbrev order : ℕ → Side → ℕ → ℕ → BookOrder
order id side price quantity = record {
  exchange_order_id = id;
  client_order_id = id;
  account_id = 7;
  price = pos price;
  remaining_quantity = quantity;
  side = side;
  time_in_force = gtc;
}

-- Bids at 10000 (two of them), 10001 and far outside the band; one ask.
busy : MatchingBook
unfolding create add
busy =
    (add
      (add
        (add (add (add (create 1024) (order 1 buy 10000 5)).1 (order 2 buy 10001 6)).1
          (order 3 buy 10000 7)).1
        (order 4 buy 90000 8)).1
      (order 5 sell 20000 9)).1

ids : List BookOrder → List ℕ
ids = map (λ o. o.exchange_order_id)

all_bids : ids (all_of busy buy) ≡ 4 ∷ 2 ∷ 1 ∷ 3 ∷ []
unfolding ids busy all_of Index.empty Index.level_for Index.level_at Index.put_level
    Index.best_price Index.next_price Index.create Overflow.find Overflow.put Overflow.last_key
    Overflow.last_below to_u64 ◌+ℤ◌ ◌-ℤ◌ is_set set_bit highest_bit mask_below
all_bids = refl

-- ===== src/Feed/Manager.antt =====
-- mdh/include/book/book_manager.hpp and mdh/src/book/book_manager.cpp: a book for each instrument, and
-- what was traded.
use cpp_projects.Base.{ℕ, Option, none, some, List, [], ◌∷◌, ltb, ◌==◌, if◌then◌else◌}
use cpp_projects.Base.Int.{pos}
use cpp_projects.Base.Map.{ℕ_key, find, insert_or_assign}
use cpp_projects.Base.Word.{add64, inc64}
use cpp_projects.Types.{Price, Quantity}
use cpp_projects.Feed.Book.{BookError, OrderBook, empty_book}

pub record InstrumentStats : Type 0 where
  pub trade_count : ℕ
  pub traded_quantity : Quantity
  pub last_trade_price : Price

pub record BookManager : Type 0 where
  pub books : List (ℕ × OrderBook)
  pub trades : List (ℕ × InstrumentStats)

abbrev pub no_books : BookManager
no_books = record { books = []; trades = [] }

abbrev pub book_or_empty : Option OrderBook → OrderBook
book_or_empty none = empty_book
book_or_empty (some b) = b

-- The book that `books_[id]` gives.
unfoldable pub book_for : ℕ → BookManager → OrderBook
unfolding find
book_for id m = book_or_empty (find id m.books)

-- A call on `book_for(id)`.
unfoldable pub on_book :
    ℕ → (OrderBook → Option BookError × OrderBook) → BookManager → Option BookError × BookManager
unfolding book_for insert_or_assign
on_book id call m =
    let (answer, b) = call (book_for id m) in
    (answer, record m { books = insert_or_assign id b m.books })

unfoldable pub find_book : ℕ → BookManager → Option OrderBook
unfolding find
find_book id m = find id m.books

abbrev pub stats_or_zero : Option InstrumentStats → InstrumentStats
stats_or_zero none = record { trade_count = 0; traded_quantity = 0; last_trade_price = pos 0 }
stats_or_zero (some s) = s

unfoldable pub record_trade : ℕ → Price → Quantity → BookManager → BookManager
unfolding find insert_or_assign
record_trade id price qty m =
    let s = stats_or_zero (find id m.trades) in
    record m {
      trades =
          insert_or_assign id
            (record {
              trade_count = inc64 s.trade_count;
              traded_quantity = add64 s.traded_quantity qty;
              last_trade_price = price;
            })
            m.trades;
    }

unfoldable pub trade_stats : ℕ → BookManager → Option InstrumentStats
unfolding find
trade_stats id m = find id m.trades

-- std::set::insert, on its elements in their order.
abbrev pub insert_id : ℕ → List ℕ → List ℕ
insert_id id [] = id ∷ []
insert_id id (j ∷ ids) =
    let rest = insert_id id ids in
    if ltb id j then id ∷ j ∷ ids else if id == j then j ∷ ids else j ∷ rest

abbrev pub insert_keys {ℓ} : {V : Type ℓ} → List (ℕ × V) → List ℕ → List ℕ
insert_keys [] ids = ids
insert_keys ((id, v) ∷ entries) ids = insert_keys entries (insert_id id ids)

abbrev pub instruments : BookManager → List ℕ
instruments m = insert_keys m.trades (insert_keys m.books [])

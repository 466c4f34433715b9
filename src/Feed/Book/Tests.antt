-- ===== src/Feed/Book/Tests.antt =====
-- mdh/src/book/order_book.cpp: runs of a book.
use cpp_projects.Base.{◌≡◌, refl, none, some, List, [], ◌∷◌, arith}
use cpp_projects.Base.Int.{pos}
use cpp_projects.Types.{buy, sell}
use cpp_projects.Feed.Book.{
  unknown_order_id, duplicate_order_id, empty_book, best_bid, best_ask, add_order, cancel_order,
  modify_order,
}
use cpp_projects.Feed.Book.Contents.{held}
use cpp_projects.Feed.Book.Refines.{
  BookCall, add_call, cancel_call, modify_call, performs, acts, performs-acts,
}
use cpp_projects.Feed.Book.Best.{IsBest, performs-IsBest}

abbrev calls : List BookCall
calls =
    add_call 1 (pos 100) 5 buy
    ∷ add_call 2 (pos 101) 7 buy
    ∷ add_call 2 (pos 102) 1 sell
    ∷ modify_call 1 (pos 99) 4
    ∷ cancel_call 3
    ∷ cancel_call 2
    ∷ []

performs-acts_example :
    ((performs calls empty_book).0 ≡ (acts calls (λ j. none)).0)
    × (held (performs calls empty_book).1 ≡ (acts calls (λ j. none)).1)
performs-acts_example = performs-acts calls

performs-IsBest_example :
    IsBest buy (performs calls empty_book).1 (best_bid (performs calls empty_book).1)
    × IsBest sell (performs calls empty_book).1 (best_ask (performs calls empty_book).1)
performs-IsBest_example =
    performs-IsBest calls (omega arith, (omega arith, (omega arith, (omega arith, (tt, (tt, tt))))))

answers_test :
    (performs calls empty_book).0
    ≡ none ∷ none ∷ some duplicate_order_id ∷ none ∷ some unknown_order_id ∷ none ∷ []
unfolding add_order cancel_order modify_order
answers_test = refl

-- ===== src/Lob/Engine/Tests.antt =====
-- LimitOrderBook/src/matching_engine.cpp: a run of the engine.
use cpp_projects.Base.{◌≡◌, refl, some, List, [], ◌∷◌, arith}
use cpp_projects.Base.Int.{pos}
use cpp_projects.Types.{buy, sell}
use cpp_projects.Lob.{
  empty_book, add, match_order, match_loop, rest_order, at_level, level_add, cancel,
}
use cpp_projects.Lob as Lob
use cpp_projects.Lob.Engine.{new_engine, push, pop, is_valid, submit, round, rounds, published_ask}
use cpp_projects.Lob.Engine.Drain.{Request, HasDone, submit_all, commands_from, submit_all-HasDone}

abbrev requests : List Request
requests =
    record { timestamp = 1; price = pos 101; quantity = 5; side = sell }
    ∷ record { timestamp = 2; price = pos 0; quantity = 5; side = sell }
    ∷ record { timestamp = 3; price = pos 99; quantity = 5; side = buy }
    ∷ []

submit_all-HasDone_example :
    HasDone (commands_from 0 requests) empty_book (rounds 4 (submit_all requests new_engine))
submit_all-HasDone_example = submit_all-HasDone requests 4 (omega arith) (omega arith)

published_test : published_ask (rounds 4 (submit_all requests new_engine)) ≡ some (pos 101)
unfolding rounds round push pop is_valid submit add match_order match_loop Lob.round rest_order
    at_level level_add
published_test = refl

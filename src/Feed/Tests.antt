-- ===== src/Feed/Tests.antt =====
-- A stream with a repeat, a gap and a late number.
use cpp_projects.Base.{ℕ, ◌≡◌, refl, some, List, [], ◌∷◌, arith}
use cpp_projects.Feed.Sequence.{
  PacketSequenceTracker, check_sequence, taken, RisesAbove, taken-RisesAbove,
}

abbrev stream : List ℕ
stream = 5 ∷ 5 ∷ 8 ∷ 6 ∷ 9 ∷ []

taken_of_stream : taken (some 4) stream ≡ 5 ∷ 8 ∷ 9 ∷ []
unfolding check_sequence
taken_of_stream = refl

taken-RisesAbove_example : RisesAbove 4 (taken (some 4) stream)
taken-RisesAbove_example =
    taken-RisesAbove 4 stream (omega arith)
      (omega arith, (omega arith, (omega arith, (omega arith, (omega arith, tt)))))

abbrev tracker : PacketSequenceTracker
tracker = record {
  validator = some 4;
  stats = record {
    packets_seen = 3;
    in_order_count = 2;
    duplicate_count = 1;
    out_of_order_count = 0;
    missing_events = 0;
  };
}

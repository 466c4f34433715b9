-- ===== src/Exchange/Book/Overflow.antt =====
-- The std::pmr::map of a SideIndex: price levels in ascending order of price.
use cpp_projects.Base.{Option, none, some, List, [], ◌∷◌, if◌then◌else◌}
use cpp_projects.Base.Int.{ℤ, ltb_ℤ, ◌==ℤ◌}

module _ {ℓ} {V : Type ℓ} where
  unfoldable pub find : ℤ → List (ℤ × V) → Option V
  find k [] = none
  find k ((j, v) ∷ m) = if j ==ℤ k then some v else find k m

  -- `m[k] = v`, in its place in the order.
  unfoldable pub put : ℤ → V → List (ℤ × V) → List (ℤ × V)
  put k v [] = (k, v) ∷ []
  put k v ((j, w) ∷ m) =
      let rest = put k v m in
      if j ==ℤ k then (k, v) ∷ m else if ltb_ℤ k j then (k, v) ∷ (j, w) ∷ m else (j, w) ∷ rest

  unfoldable pub erase : ℤ → List (ℤ × V) → List (ℤ × V)
  erase k [] = []
  erase k ((j, w) ∷ m) = if j ==ℤ k then m else (j, w) ∷ erase k m

  -- `m.begin()->first`.
  unfoldable pub first_key : List (ℤ × V) → Option ℤ
  first_key [] = none
  first_key ((j, _) ∷ m) = some j

  -- `std::prev(m.end())->first`.
  unfoldable pub last_key : List (ℤ × V) → Option ℤ
  last_key [] = none
  last_key ((j, _) ∷ []) = some j
  last_key (_ ∷ e ∷ m) = last_key (e ∷ m)

  -- `m.upper_bound(k)`: the first key above `k`.
  unfoldable pub first_above : ℤ → List (ℤ × V) → Option ℤ
  first_above k [] = none
  first_above k ((j, _) ∷ m) = if ltb_ℤ k j then some j else first_above k m

  -- `std::prev(m.lower_bound(k))`: the last key below `k`, if any.
  unfoldable pub last_below : ℤ → List (ℤ × V) → Option ℤ
  last_below k [] = none
  last_below k ((j, _) ∷ m) =
      let later = last_below k m in
      if ltb_ℤ j k then elim later [ none ↦ some j | some i ↦ some i ] else none

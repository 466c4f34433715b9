-- ===== src/Base/Lookups.antt =====
-- What a map finds after a change.
use mathlib.Core.Path.{◌≡◌, refl, sym, ap}
use mathlib.Core.Logic.{◌≢◌, inl, inr}
use mathlib.Core.Bool.{true, false}
use mathlib.Core.Option.{none, some}
use mathlib.Core.List.{List, [], ◌∷◌}
use cpp_projects.Base.Tests.{if◌then◌else◌, Bool-cases}
use cpp_projects.Base.Map.{Key, find, insert_or_assign, erase, try_emplace}

module _ {ℓ} {K : Type ℓ} ⦃e : Key K⦄ where
  pub same_self : (k : K) → e.same k k ≡ true
  same_self k = (e.same_iff k k).1 refl

  pub same_ne : (j k : K) → j ≢ k → e.same j k ≡ false
  same_ne j k ne = elim (Bool-cases (e.same j k)) [
    | inl same ↦ absurd (ne ((e.same_iff j k).0 same))
    | inr other ↦ other
  ]

module _ {ℓ κ} {K : Type ℓ} {V : Type κ} ⦃e : Key K⦄ where
  pub find-insert_self :
      (k : K) (v : V) (m : List (K × V)) → find k (insert_or_assign k v m) ≡ some v
  unfolding find insert_or_assign
  find-insert_self k v [] = rw (same_self k) refl
  find-insert_self k v ((j, w) ∷ m) = elim (Bool-cases (e.same j k)) [
    | inl same ↦ rw (same, same_self k) refl
    | inr other ↦ rw (other, other) (find-insert_self k v m)
  ]

  pub find-insert_ne :
      (j k : K) (v : V) (m : List (K × V)) → j ≢ k → find j (insert_or_assign k v m) ≡ find j m
  unfolding find insert_or_assign
  find-insert_ne j k v [] ne = rw (same_ne k j (λ h. ne (sym h))) refl
  find-insert_ne j k v ((i, w) ∷ m) ne = elim (Bool-cases (e.same i k)) [
    | inl same ↦
        let key : i ≡ k = (e.same_iff i k).0 same in
        rw (same, key, same_ne k j (λ h. ne (sym h))) refl
    | inr other ↦
        rw (other) (ap (λ r. if e.same i j then some w else r) (find-insert_ne j k v m ne))
  ]

  pub find-erase_self : (k : K) (m : List (K × V)) → find k (erase k m) ≡ none
  unfolding find erase
  find-erase_self k [] = refl
  find-erase_self k ((j, w) ∷ m) = elim (Bool-cases (e.same j k)) [
    | inl same ↦ rw (same) (find-erase_self k m)
    | inr other ↦ rw (other, other) (find-erase_self k m)
  ]

  pub find-erase_ne : (j k : K) (m : List (K × V)) → j ≢ k → find j (erase k m) ≡ find j m
  unfolding find erase
  find-erase_ne j k [] ne = refl
  find-erase_ne j k ((i, w) ∷ m) ne = elim (Bool-cases (e.same i k)) [
    | inl same ↦
        let key : i ≡ k = (e.same_iff i k).0 same in
        rw (same, key, same_ne k j (λ h. ne (sym h))) (find-erase_ne j k m ne)
    | inr other ↦ rw (other) (ap (λ r. if e.same i j then some w else r) (find-erase_ne j k m ne))
  ]

  pub try_emplace-free :
      (k : K) (v : V) (m : List (K × V))
      → find k m ≡ none
      → try_emplace k v m ≡ insert_or_assign k v m
  unfolding try_emplace
  try_emplace-free k v m free = rw (try_emplace, free) refl

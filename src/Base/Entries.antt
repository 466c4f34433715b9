-- ===== src/Base/Entries.antt =====
-- What holds of every entry of a map, or of every item of a list.
use mathlib.Core.Path.{◌≡◌}
use mathlib.Core.Logic.{inl, inr}
use mathlib.Core.Option.{some}
use mathlib.Core.List.{List, [], ◌∷◌, ◌++◌}
use native.Mathlib.Omega.{arith}
use cpp_projects.Base.Tests.{Bool-cases, Option-cases}
use cpp_projects.Base.Map.{Key, find, insert_or_assign, erase, try_emplace}

module _ {ℓ} {A : Type ℓ} where
  abbrev pub AllItems : (A → Type 0) → List A → Type 0
  AllItems P [] = Unit
  AllItems P (x ∷ xs) = P x × AllItems P xs

  pub AllItems-append :
      (P : A → Type 0) (xs ys : List A) → AllItems P xs → AllItems P ys → AllItems P (xs ++ ys)
  AllItems-append P [] ys hx hy = hy
  AllItems-append P (x ∷ xs) ys hx hy = (hx.0, AllItems-append P xs ys hx.1 hy)

  pub AllItems-mono :
      (P Q : A → Type 0) (xs : List A) → ((x : A) → P x → Q x) → AllItems P xs → AllItems Q xs
  AllItems-mono P Q [] f h = tt
  AllItems-mono P Q (x ∷ xs) f h = (f x h.0, AllItems-mono P Q xs f h.1)

module _ {ℓ κ} {K : Type ℓ} {V : Type κ} where
  abbrev pub AllEntries : (K → V → Type 0) → List (K × V) → Type 0
  AllEntries P [] = Unit
  AllEntries P ((k, v) ∷ m) = P k v × AllEntries P m

  pub AllEntries-mono :
      (P Q : K → V → Type 0) (m : List (K × V))
      → ((k : K) (v : V) → P k v → Q k v)
      → AllEntries P m
      → AllEntries Q m
  AllEntries-mono P Q [] f h = tt
  AllEntries-mono P Q ((k, v) ∷ m) f h = (f k v h.0, AllEntries-mono P Q m f h.1)

module _ {ℓ κ} {K : Type ℓ} {V : Type κ} ⦃e : Key K⦄ (P : K → V → Type 0) where
  pub AllEntries-find :
      (k : K) (m : List (K × V)) (v : V) → AllEntries P m → find k m ≡ some v → P k v
  unfolding find
  AllEntries-find k [] v h f = cc
  AllEntries-find k ((j, w) ∷ m) v h f = elim (Bool-cases (e.same j k)) [
    | inl same ↦
        let key : j ≡ k = (e.same_iff j k).0 same in
        let value : w ≡ v = ground (arith, same) in rw (← key, ← value) h.0
    | inr other ↦ AllEntries-find k m v h.1 (ground (arith, other))
  ]

  pub AllEntries-insert :
      (k : K) (v : V) (m : List (K × V))
      → P k v
      → AllEntries P m
      → AllEntries P (insert_or_assign k v m)
  unfolding insert_or_assign
  AllEntries-insert k v [] p h = (p, tt)
  AllEntries-insert k v ((j, w) ∷ m) p h = elim (Bool-cases (e.same j k)) [
    | inl same ↦ rw (same) (p, h.1)
    | inr other ↦ rw (other) (h.0, AllEntries-insert k v m p h.1)
  ]

  pub AllEntries-erase : (k : K) (m : List (K × V)) → AllEntries P m → AllEntries P (erase k m)
  unfolding erase
  AllEntries-erase k [] h = tt
  AllEntries-erase k ((j, w) ∷ m) h = elim (Bool-cases (e.same j k)) [
    | inl same ↦ rw (same) (AllEntries-erase k m h.1)
    | inr other ↦ rw (other) (h.0, AllEntries-erase k m h.1)
  ]

  pub AllEntries-try_emplace :
      (k : K) (v : V) (m : List (K × V)) → P k v → AllEntries P m → AllEntries P (try_emplace k v m)
  unfolding try_emplace
  AllEntries-try_emplace k v m p h = elim (Option-cases (find k m)) [
    | inl free ↦ rw (try_emplace, free) (AllEntries-insert k v m p h)
    | inr (w, taken) ↦ rw (try_emplace, taken) h
  ]

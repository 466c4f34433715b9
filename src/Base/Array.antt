-- ===== src/Base/Array.antt =====
-- std::vector and heap arrays: a size and the contents. A read past the size is undefined in the
-- source; here it gives what `at` happens to hold there.
use Prim.Native.Nat.{ℕ, ◌+◌}
use cpp_projects.Base.Tests.{◌==◌, if◌then◌else◌}

pub record Array {ℓ} (A : Type ℓ) : Type ℓ where
  pub size : ℕ
  pub at : ℕ → A

module _ {ℓ} {A : Type ℓ} where
  -- `v[i] = a`.
  abbrev pub write : Array A → ℕ → A → Array A
  write v i a = record v { at = λ j. if i == j then a else v.at j }

  abbrev pub push_back : Array A → A → Array A
  push_back v a = record { size = v.size + 1; at = λ j. if v.size == j then a else v.at j }

  -- `v.assign(n, a)`.
  abbrev pub assign : ℕ → A → Array A
  assign n a = record { size = n; at = λ _. a }

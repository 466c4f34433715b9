-- ===== src/Queue/Capacity.antt =====
-- mdh/include/common/spsc_queue.hpp: the loop of next_power_of_two.
use Prim.Native.Nat.{◌^◌, ◌∣◌}
use native.Mathlib.Nat.{dvd-mul_right}
use cpp_projects.Base.{
  ℕ, zero, suc, ◌*◌, ◌%◌, ◌≤◌, ◌<◌, ◌≡◌, ◌⊎◌, refl, sym, ap, ◌∙◌, Bool-cases, inl, inr, some, ltb,
  arith,
}
use cpp_projects.Base.Word.{u64_mod}
use cpp_projects.Queue.{double_until, next_power_of_two}

-- A capacity: at least what was asked for, less than twice that, and a divisor of 2 ^ 64.
pub record IsCapacity (n q : ℕ) : Type 0 where
  pub enough : n ≤ q
  pub tight : (q ≡ 1) ⊎ (q < 2 * n)
  pub divides : q ∣ u64_mod

pow_suc : (k : ℕ) → 2 ^ suc k ≡ 2 * 2 ^ k
pow_suc k = omega arith

pow_pos : (k : ℕ) → 0 < 2 ^ k
pow_pos zero = omega arith
pow_pos (suc k) = omega (arith, pow_suc k, pow_pos k)

-- A power below 2 ^ 63 that can still be doubled `k` times.
abbrev IsPower : ℕ → ℕ → Type 0
IsPower k p = p * 2 ^ k ≡ 2 ^ 63

regroup : (p t : ℕ) → 2 * p * t ≡ p * (2 * t)
regroup p t = grind arith

IsPower-double : (k p : ℕ) → IsPower (suc k) p → IsPower k (2 * p)
IsPower-double k p h = regroup p (2 ^ k) ∙ sym (ap (λ t. p * t) (pow_suc k)) ∙ h

IsPower-le : (k p : ℕ) → IsPower k p → p ≤ 2 ^ 63
IsPower-le k p h = grind (arith, pow_pos k)

IsPower-dvd : (k p : ℕ) → IsPower k p → p ∣ u64_mod
IsPower-dvd k p h = rw (← (two h)) (dvd-mul_right p (2 ^ k * 2))
  where
    two : p * 2 ^ k ≡ 2 ^ 63 → p * (2 ^ k * 2) ≡ u64_mod
    two h = grind arith

double_until_total :
    (k p n : ℕ)
    → IsPower k p
    → n ≤ 2 ^ 63
    → (p ≡ 1) ⊎ (p < 2 * n)
    → (q : ℕ) × (double_until (suc k) p n ≡ some q) × IsCapacity n q
unfolding double_until
double_until_total zero p n h small tight =
    (p, ground arith, record { enough = ground arith; tight = tight; divides = IsPower-dvd 0 p h })
double_until_total (suc k) p n h small tight = elim (Bool-cases (ltb p n)) [
  | inl more ↦ rw (more) (
      double_until_total k (2 * p % u64_mod) n (rw (wraps) (IsPower-double k p h)) small
        (inr (rw (wraps) (ground arith))))
  | inr done ↦ (
    p,
    rw (done) refl,
    record { enough = ground arith; tight = tight; divides = IsPower-dvd (suc k) p h },
  )
]
  where
    wraps : 2 * p % u64_mod ≡ 2 * p
    wraps = omega (arith, IsPower-le k (2 * p) (IsPower-double k p h))

-- For every size up to 2 ^ 63 the loop ends, at the capacity that the size asks for.
pub next_power_of_two_total :
    (n : ℕ) → n ≤ 2 ^ 63 → (q : ℕ) × (next_power_of_two n ≡ some q) × IsCapacity n q
unfolding next_power_of_two
next_power_of_two_total n h = double_until_total 63 1 n (omega arith) h (inl refl)

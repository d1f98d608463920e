-- ===== src/Prelude/Power.antt =====
-- Powers of two on the native numbers.
use ptpd_lwip.Prelude.{
  ℕ, ◌<◌, ◌^◌, arith, ◌+◌, ltb, ◌≡◌, suc, false, zero, ◌*◌, ◌≤◌, ap, Bool-cases, inl, inr,
}
use native.Mathlib.Nat.{pow-suc, add-zero, add-suc, pow-le-pow_right}

pub pow-add : (p k : ℕ) → 2 ^ (p + k) ≡ 2 ^ p * 2 ^ k
pow-add p zero = rw add-zero (omega arith)
pow-add p (suc k) = rw add-suc (
    rw (pow-suc 2 (p + k))
      (rw (pow-suc 2 k) (omega (arith, pow-add p k, ap (λ (t : ℕ). t * 2) (pow-add p k)))))

pub pow_pos : (k : ℕ) → 0 < 2 ^ k
pow_pos zero = omega arith
pow_pos (suc k) = rw (pow-suc 2 k) (omega (arith, pow_pos k))

pub exponent_lt : (p k : ℕ) → 2 ^ p < 2 ^ k → p < k
exponent_lt p k h = elim (Bool-cases (ltb p k)) [
  | inl below ↦ ground arith
  | inr above ↦ absurd (omega (arith, h, pow-le-pow_right two_pos (at_least above)))
]
  where
    two_pos : 0 < 2
    two_pos = omega arith

    at_least : ltb p k ≡ false → k ≤ p
    at_least e = ground arith

-- ===== src/Arith/Log2.antt =====
-- `floorLog2` of src/arith.c.
use native.Mathlib.Nat.{mul-le-mul_left}
use ptpd_lwip.Prelude.Power.{pow-add, pow_pos}
use ptpd_lwip.Prelude.Int.{pos}
use ptpd_lwip.Prelude.{ℕ, ◌<◌, ◌^◌, ◌*◌, ◌≡◌, ◌≤◌, ◌+◌, arith, Bool-cases, leb, inl, inr, ◌/◌}
use ptpd_lwip.Arith.{floor_log2, descend, descent}

-- The pair (n, pos) after some lines of the descent from `m`, with numbers below 2^w to come.
record Descent (m w : ℕ) (r : ℕ × ℕ) : Type 0 where
  positive : 0 < r.0
  below : r.0 < 2 ^ w
  lower : r.0 * 2 ^ r.1 ≤ m
  upper : m < (r.0 + 1) * 2 ^ r.1

quotient_facts :
    (n k : ℕ)
    → 0 < k
    → k ≤ n
    → n < k * k
    → (0 < n / k) × (n / k < k) × (n / k * k ≤ n) × (n < (n / k + 1) * k)
quotient_facts n k h low high = (grind arith, grind arith, grind arith, grind arith)

-- The window around `m` after a shift by `k` more places, with `P` and `K` for the two powers.
shift_window :
    (m n q P K : ℕ)
    → q * K ≤ n
    → n < (q + 1) * K
    → n * P ≤ m
    → m < (n + 1) * P
    → (q * (P * K) ≤ m) × (m < (q + 1) * (P * K))
shift_window m n q P K a b c d =
    (omega (arith, mul-le-mul_left P a), omega (arith, mul-le-mul_left P b))

-- One line of the descent.
descend-Descent : (m k : ℕ) (r : ℕ × ℕ) → Descent m (k + k) r → Descent m k (descend k r)
unfolding descend
descend-Descent m k (n, p) d = elim (Bool-cases (leb (2 ^ k) n)) [
  | inl big ↦
      let (positive, below, low, high) =
        quotient_facts n (2 ^ k) (pow_pos k) (ground arith) (omega (arith, d.below, pow-add k k)) in
      let (lower, upper) = shift_window m n (n / 2 ^ k) (2 ^ p) (2 ^ k) low high d.lower d.upper in
      rw big (record {
        positive = positive;
        below = below;
        lower = rw pow-add lower;
        upper = rw pow-add upper;
      })
  | inr small ↦
      rw small
        (record { positive = d.positive; below = ground arith; lower = d.lower; upper = d.upper })
]

floor_log2_start : (n : ℕ) → 0 < n → n < 2 ^ 32 → Descent n 32 (n, 0)
floor_log2_start n h k = omega arith

floor_log2_16 : (n : ℕ) → 0 < n → n < 2 ^ 32 → Descent n 16 (descend 16 (n, 0))
floor_log2_16 n h k = descend-Descent n 16 (n, 0) (floor_log2_start n h k)

Descent-one : (m : ℕ) (r : ℕ × ℕ) → Descent m 1 r → (2 ^ r.1 ≤ m) × (m < 2 ^ (r.1 + 1))
Descent-one m (n, p) d = rw (pow-add p 1) (grind arith)

descent-Descent : (n : ℕ) → 0 < n → n < 2 ^ 32 → Descent n 1 (descent n)
unfolding descent
descent-Descent n h k =
    descend-Descent n 1 _
      (descend-Descent n 2 _ (descend-Descent n 4 _ (descend-Descent n 8 _ (floor_log2_16 n h k))))

-- `floorLog2` of a positive number of 32 bits is the exponent of the greatest power of two that
-- does not exceed it.
pub floor_log2_lem :
    (n : ℕ)
    → 0 < n
    → n < 2 ^ 32
    → (p : ℕ) × (floor_log2 n ≡ pos p) × (2 ^ p ≤ n) × (n < 2 ^ (p + 1))
unfolding floor_log2
floor_log2_lem n h k =
    let (lower, upper) = Descent-one n (descent n) (descent-Descent n h k) in
    ((descent n).1, ground arith, lower, upper)

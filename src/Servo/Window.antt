-- ===== src/Servo/Window.antt =====
-- The arithmetic of `filter` in src/servo.c on numbers that are not negative: an output `y` at the
-- order `p` is a sum in the window from y * 2^p up to (y + 1) * 2^p.
use native.Mathlib.Nat.{
  mul-le-mul_left, div-mul-le_self, le-div_iff_mul-le, div-lt_iff_lt-mul, lt-mul-div-succ,
}
use ptpd_lwip.Prelude.{
  arith, ◌≤◌, ◌<◌, ℕ, ◌*◌, ◌⊎◌, ◌+◌, ◌/◌, ◌-◌, inl, ◌≡◌, inr, Bool-cases, leb, ap,
}

abbrev pub InWindow : ℕ → ℕ → ℕ → Type 0
InWindow y P sum = (y * P ≤ sum) × (sum < (y + 1) * P)

-- The window of a quotient.
pub quotient-InWindow : (sum P : ℕ) → 0 < P → InWindow (sum / P) P sum
quotient-InWindow sum P h = (div-mul-le_self sum P, omega (arith, lt-mul-div-succ sum h))

-- Lowering the order by the factor `K`.
pub lowered-InWindow : (y P K sum : ℕ) → 0 < K → InWindow y (P * K) sum → InWindow y P (sum / K)
lowered-InWindow y P K sum h w =
    ((le-div_iff_mul-le h).1 (omega (arith, w.0)), (div-lt_iff_lt-mul h).1 (omega (arith, w.1)))

-- Raising it.
pub raised-InWindow : (y P K sum : ℕ) → 0 < K → InWindow y P sum → InWindow y (P * K) (sum * K)
raised-InWindow y P K sum h w =
    (omega (arith, mul-le-mul_left K w.0), omega (arith, mul-le-mul_left K w.1, h))

-- The next output lies between the last one and the sample `x`.
abbrev pub Between : ℕ → ℕ → ℕ → Type 0
Between y x z = ((y ≤ z) × (z ≤ x)) ⊎ ((x ≤ z) × (z ≤ y))

rising-Between :
    (y P sum d : ℕ) → 0 < P → InWindow y P sum → (y ≤ (sum + d) / P) × ((sum + d) / P < y + d + 1)
rising-Between y P sum d h w = (
  (le-div_iff_mul-le h).1 (omega (arith, w.0)),
  (div-lt_iff_lt-mul h).1 (omega (arith, w.1, mul-le-mul_left d h)),
)

falling-Between :
    (x P sum d : ℕ)
    → 0 < P
    → InWindow (x + d) P sum
    → (x ≤ (sum - d) / P) × ((sum - d) / P < x + d + 1)
falling-Between x P sum d h w = (
  (le-div_iff_mul-le h).1 (omega (arith, w.0, mul-le-mul_left d h)),
  (div-lt_iff_lt-mul h).1 (omega (arith, w.1)),
)

order_cases : (y x : ℕ) → ((d : ℕ) × (x ≡ y + d)) ⊎ ((d : ℕ) × (y ≡ x + d))
order_cases y x = elim (Bool-cases (leb y x)) [
  | inl up ↦ inl (x - y, ground arith)
  | inr down ↦ inr (y - x, ground arith)
]

net_up : (sum y d : ℕ) → sum + (y + d) - y ≡ sum + d
net_up sum y d = omega arith

net_down : (sum x d : ℕ) → sum + x - (x + d) ≡ sum - d
net_down sum x d = omega arith

pub next-Between : (y P sum x : ℕ) → 0 < P → InWindow y P sum → Between y x ((sum + x - y) / P)
next-Between y P sum x h w = elim (order_cases y x) [
  | inl (d, up) ↦ rw up (
      rw (net_up sum y d)
        (let (low, high) = rising-Between y P sum d h w in inl (low, omega arith)))
  | inr (d, down) ↦ rw down (
      rw (net_down sum x d)
        (let (low, high) = falling-Between x P sum d h (rw⁻¹ down w) in inr (low, omega arith)))
]

-- A sum in the window takes the sample without leaving the numbers below `M`.
pub net-lt :
    (y P sum x M : ℕ)
    → 0 < P
    → InWindow y P sum
    → (y + 1) * P ≤ M
    → (x + 1) * P ≤ M
    → (y ≤ sum) × (sum + x - y < M)
net-lt y P sum x M h w hy hx = (
  omega (arith, w.0, mul-le-mul_left y h),
  elim (order_cases y x) [
    | inl (d, up) ↦ omega (arith, w.1, mul-le-mul_left d h, ap (λ t. t * P) up)
    | inr (d, down) ↦ omega (arith, w.1, down)
  ],
)

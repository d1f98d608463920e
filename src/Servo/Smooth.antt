-- ===== src/Servo/Smooth.antt =====
-- `filter` of src/servo.c on samples that are not negative.
pub mod Between
pub mod Samples
use ptpd_lwip.Servo.Window.{InWindow, lowered-InWindow, raised-InWindow}
use ptpd_lwip.Arith.{floor_log2}
use ptpd_lwip.Prelude.Power.{exponent_lt, pow_pos, pow-add}
use ptpd_lwip.Arith.Log2.{floor_log2_lem}
use ptpd_lwip.Types.DataSet.{Filter}
use ptpd_lwip.Prelude.Word.{residue, s32-eq, u32, s32}
use ptpd_lwip.Servo.{order, speed_up, min, one_shl, rescale}
use native.Mathlib.Nat.{pow-le-pow_right}
use ptpd_lwip.Prelude.{
  arith, ◌≤◌, ◌<◌, ℕ, ◌^◌, ◌≡◌, Bool-cases, ◌+◌, suc, ltb, inl, ◌-◌, inr, zero, refl, ◌∙◌, ap,
  false, true, ◌*◌, ◌⊎◌, ◌/◌, sym,
}
use ptpd_lwip.Prelude.Int.{int_laws, pos_part, neg_part, ◌-ℤ◌, pos, ltb_ℤ, eqb_ℤ, ◌*ℤ◌}

-- A filter of order `top` with `n` samples, whose last output is `y` at the order `level`.
abbrev pub settled : ℕ → ℕ → ℕ → ℕ → ℕ → Filter
settled y sum level top n = record {
  y_prev = pos y;
  y_sum = pos sum;
  s = pos top;
  s_prev = pos level;
  n = pos n;
}

two_pos : 0 < 2
two_pos = omega arith

power_le : (k m : ℕ) → k ≤ m → 2 ^ k ≤ 2 ^ m
power_le k m h = pow-le-pow_right two_pos h

one_shl-pos : (top : ℕ) → top ≤ 30 → one_shl (pos top) ≡ pos (2 ^ top)
one_shl-pos top h = s32-eq (pos (2 ^ top)) (omega (arith, power_le top 30 h))

not_negative : (m : ℕ) → ltb_ℤ (pos m) (pos 0) ≡ false
not_negative m = ground arith

not_zero : (m : ℕ) → eqb_ℤ (pos (suc m)) (pos 0) ≡ false
not_zero m = ground arith

u32-pos : (m : ℕ) → m < 2 ^ 32 → u32 (pos m) ≡ m
unfolding residue
u32-pos m h = omega arith

order-floor_log2 : (m : ℕ) → suc m < 2 ^ 32 → order (pos (suc m)) ≡ floor_log2 (suc m)
unfolding order
order-floor_log2 m h =
    rw (not_negative (suc m)) (rw (not_zero m) (ap floor_log2 (u32-pos (suc m) h)))

order_lem : (m : ℕ) → m < 2 ^ 31 → (q : ℕ) × (order (pos m) ≡ pos q) × (q ≤ 30) × (m < 2 ^ (q + 1))
unfolding order
order_lem zero h = (0, refl, omega arith, omega arith)
order_lem (suc m) h =
    let (p, value, low, high) = floor_log2_lem (suc m) (omega arith) (omega arith) in
    (
      p,
      order-floor_log2 m (omega arith) ∙ value,
      omega (arith, exponent_lt p 31 (omega (arith, low, h))),
      high,
    )

speed_up_lem :
    (y sum level top n : ℕ)
    → top ≤ 30
    → 0 < n
    → (k n' : ℕ) × (speed_up (settled y sum level top n) ≡ (pos k, settled y sum level top n'))
      × (k ≤ 30)
      × (0 < n')
      × (n' ≤ 2 ^ 30)
unfolding speed_up
speed_up_lem y sum level top n ht hn =
    rw (one_shl-pos top ht) (elim (Bool-cases (ltb_ℤ (pos n) (pos (2 ^ top)))) [
      | inl few ↦
          let (k, value, hk, _) = order_lem n (omega (arith, power_le top 30 ht, few_lem few)) in
          rw few (rw value (k, n, refl, hk, hn, omega (arith, power_le top 30 ht, few_lem few)))
      | inr many ↦ rw many (top, 2 ^ top, refl, ht, pow_pos top, power_le top 30 ht)
    ])
  where
    few_lem : ltb_ℤ (pos n) (pos (2 ^ top)) ≡ true → n < 2 ^ top
    few_lem e = ground arith

level_lem :
    (k q : ℕ) → k ≤ 30 → q ≤ 30 → (t : ℕ) × (min (pos k) (pos 30 -ℤ pos q) ≡ pos t) × (t + q ≤ 30)
unfolding ◌-ℤ◌
level_lem k q hk hq = elim (Bool-cases (ltb (30 - q) k)) [
  | inl less ↦ (30 - q, ground arith, omega arith)
  | inr more ↦ (k, ground arith, ground arith)
]

gap : (t d : ℕ) → pos_part (pos (t + suc d) -ℤ pos t) ≡ suc d
unfolding ◌-ℤ◌
gap t d = ground arith

below : (t d : ℕ) → ltb_ℤ (pos t) (pos (t + suc d)) ≡ true
below t d = ground arith

not_below : (t d : ℕ) → ltb_ℤ (pos (t + d)) (pos t) ≡ false
not_below t d = ground arith

scaled-pos : (m K : ℕ) → m * K < 2 ^ 31 → s32 (pos m *ℤ K) ≡ pos (m * K)
scaled-pos m K h = s32-eq (pos m *ℤ K) (omega (int_laws, h)) ∙ omega int_laws

rescale-lower :
    (y sum t d top n : ℕ)
    → rescale (pos t) (settled y sum (t + suc d) top n) ≡ pos (sum / 2 ^ suc d)
unfolding rescale
rescale-lower y sum t d top n = rw (below t d) (rw (gap t d) refl)

rescale-higher :
    (y sum level d top n : ℕ)
    → sum * 2 ^ suc d < 2 ^ 31
    → rescale (pos (level + suc d)) (settled y sum level top n) ≡ pos (sum * 2 ^ suc d)
unfolding rescale
rescale-higher y sum level d top n h =
    rw (not_below level (suc d)) (rw (below level d) (rw (gap level d) (scaled-pos sum _ h)))

rescale-same : (y sum level top n : ℕ) → rescale (pos level) (settled y sum level top n) ≡ pos sum
unfolding rescale
rescale-same y sum level top n = ground arith

rescale_lem :
    (y sum level top n t : ℕ)
    → InWindow y (2 ^ level) sum
    → (y + 1) * 2 ^ t ≤ 2 ^ 31
    → (sum' : ℕ) × (rescale (pos t) (settled y sum level top n) ≡ pos sum')
      × InWindow y (2 ^ t) sum'
rescale_lem y sum level top n t w room = elim (level_cases level t) [
  | inl (d, lower) ↦ rw lower (
    sum / 2 ^ suc d,
    rescale-lower y sum t d top n,
    lowered-InWindow y (2 ^ t) (2 ^ suc d) sum (pow_pos (suc d))
        (rw⁻¹ (pow-add t (suc d)) (rw⁻¹ lower w)),
  )
  | inr (inl (d, higher)) ↦
      let raised = raised-InWindow y (2 ^ level) (2 ^ suc d) sum (pow_pos (suc d)) w in
      rw higher (
        rw (pow-add level (suc d)) (
          sum * 2 ^ suc d,
          rescale-higher y sum level d top n
              (omega (arith, raised.1, rw (pow-add level (suc d)) at (rw higher at room))),
          raised,
        ))
  | inr (inr same) ↦ rw (sym same) (sum, rescale-same y sum level top n, w)
]
  where
    level_cases : (a b : ℕ) → ((d : ℕ) × (a ≡ b + suc d)) ⊎ ((d : ℕ) × (b ≡ a + suc d)) ⊎ (a ≡ b)
    level_cases a b = elim (Bool-cases (ltb b a)) [
      | inl down ↦ inl (a - b - 1, ground arith)
      | inr rest ↦ elim (Bool-cases (ltb a b)) [
        | inl up ↦ inr (inl (b - a - 1, ground arith))
        | inr level ↦ inr (inr (ground arith))
      ]
    ]

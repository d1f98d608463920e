-- ===== src/Servo/Smooth/Between.antt =====
-- The outputs of `filter` in src/servo.c on samples that are not negative and small enough not to
-- overflow.
use ptpd_lwip.Prelude.Power.{pow-add, pow_pos}
use ptpd_lwip.Servo.Smooth.{settled, rescale_lem, speed_up_lem, order_lem, level_lem, power_le}
use ptpd_lwip.Servo.Window.{InWindow, Between, net-lt, next-Between, quotient-InWindow}
use ptpd_lwip.Prelude.Word.{s16, s32, s16-eq, s32-eq}
use ptpd_lwip.Types.DataSet.{Filter}
use ptpd_lwip.Servo.{filter_counted, smooth, max, count_sample, filter, min, order}
use native.Mathlib.Nat.{mul-le-mul_right}
use ptpd_lwip.Prelude.{
  arith, ◌≤◌, ◌<◌, ℕ, ◌^◌, ◌≡◌, ◌+◌, ◌*◌, ◌-◌, ◌⊎◌, Bool-cases, ltb, inl, ◌∙◌, ◌/◌, inr, refl, ap,
  false,
}
use ptpd_lwip.Prelude.Int.{int_laws, pos, ◌+ℤ◌, ◌-ℤ◌, ℤ, eqb_ℤ}

net-pos :
    (sum x y : ℕ)
    → y ≤ sum
    → sum + x - y < 2 ^ 31
    → s32 (pos sum +ℤ (pos x -ℤ pos y)) ≡ pos (sum + x - y)
net-pos sum x y h k = s32-eq _ (omega (int_laws, h, k)) ∙ omega (int_laws, h)

s16-pos : (t : ℕ) → t ≤ 30 → s16 (pos t) ≡ pos t
s16-pos t h = s16-eq (pos t) (omega arith)

-- A step at the order `t`, which has room for the last output and the sample.
smooth_lem :
    (x y sum level top n t : ℕ)
    → InWindow y (2 ^ level) sum
    → t ≤ 30
    → (y + 1) * 2 ^ t ≤ 2 ^ 31
    → (x + 1) * 2 ^ t ≤ 2 ^ 31
    → (z sum' : ℕ) × (smooth (pos x) (pos t) (settled y sum level top n)
        ≡ (pos z, settled z sum' t top n))
      × Between y x z
      × InWindow z (2 ^ t) sum'
unfolding smooth
smooth_lem x y sum level top n t w small hy hx =
    let (sum', scaled, w') = rescale_lem y sum level top n t w hy in
    let (low, high) = net-lt y (2 ^ t) sum' x (2 ^ 31) (pow_pos t) w' hy hx in
    (
      (sum' + x - y) / 2 ^ t,
      sum' + x - y,
      rw scaled (rw (net-pos sum' x y low high) (rw (s16-pos t small) refl)),
      next-Between y (2 ^ t) sum' x (pow_pos t) w',
      quotient-InWindow (sum' + x - y) (2 ^ t) (pow_pos t),
    )

max-pos :
    (y x : ℕ) → (m : ℕ) × (max (pos y) (pos x) ≡ pos m) × (y ≤ m) × (x ≤ m) × ((m ≡ y) ⊎ (m ≡ x))
max-pos y x = elim (Bool-cases (ltb x y)) [
  | inl more ↦ (y, ground arith, omega arith, ground arith, inl refl)
  | inr less ↦ (x, ground arith, ground arith, omega arith, inr refl)
]

-- Numbers below 2^(q + 1) leave room at the order `t`.
room_lem : (m q t : ℕ) → m < 2 ^ (q + 1) → t + q ≤ 30 → (m + 1) * 2 ^ t ≤ 2 ^ 31
room_lem m q t h k =
    omega
      (arith, mul-le-mul_right (2 ^ t) h, pow-add (q + 1) t, power_le (q + 1 + t) 31 (omega arith))

-- What a filter remembers after its first sample: the output `y`.
pub record Remembers (f : Filter) (y : ℕ) : Type 0 where
  pub sum : ℕ
  pub level : ℕ
  pub top : ℕ
  pub n : ℕ
  pub is : f ≡ settled y sum level top n
  pub window : InWindow y (2 ^ level) sum
  pub top_in : top ≤ 30
  pub n_in : (0 < n) × (n ≤ 2 ^ 30)

counted_lem :
    (x y sum level top n : ℕ)
    → InWindow y (2 ^ level) sum
    → top ≤ 30
    → 0 < n
    → y < 2 ^ 31
    → x < 2 ^ 31
    → (z : ℕ) × ((filter_counted (pos x) (settled y sum level top n)).0 ≡ pos z)
      × Remembers (filter_counted (pos x) (settled y sum level top n)).1 z
      × Between y x z
unfolding filter_counted
counted_lem x y sum level top n w ht hn hy hx =
    let (k, n', sped, hk, pos_n, le_n) = speed_up_lem y sum level top n ht hn in
    let (m, max_is, ym, xm, which) = max-pos y x in
    let (q, order_is, hq, hm) = order_lem m (ground (arith, which)) in
    let (t, min_is, fits) = level_lem k q hk hq in
    let (z, sum', done, between, w') =
      smooth_lem x y sum level top n' t w (omega arith) (room_lem y q t (omega (arith, hm)) fits)
        (room_lem x q t (omega (arith, hm)) fits) in
    let g = settled y sum level top n' in
    let run =
      ap
        (λ (r : ℤ × Filter).
          smooth (pos x) (min r.0 (pos 30 -ℤ order (max r.1.y_prev (pos x)))) r.1)
        sped
      ∙ ap (λ o. smooth (pos x) (min (pos k) (pos 30 -ℤ order o)) g) max_is
      ∙ ap (λ o. smooth (pos x) (min (pos k) (pos 30 -ℤ o)) g) order_is
      ∙ ap (λ s. smooth (pos x) s g) min_is
      ∙ done in
    (
      z,
      ap (λ r. r.0) run,
      record {
        sum = sum';
        level = t;
        top = top;
        n = n';
        is = ap (λ r. r.1) run;
        window = w';
        top_in = ht;
        n_in = (pos_n, le_n);
      },
      between,
    )

next_count : (n : ℕ) → n ≤ 2 ^ 30 → s32 (pos n +ℤ pos 1) ≡ pos (n + 1)
next_count n h = s32-eq (pos n +ℤ pos 1) (omega (int_laws, h)) ∙ omega int_laws

not_first : (n : ℕ) → 0 < n → eqb_ℤ (pos (n + 1)) (pos 1) ≡ false
not_first n h = ground (arith, h)

count_sample-next :
    (x y sum level top n : ℕ)
    → 0 < n
    → n ≤ 2 ^ 30
    → count_sample (pos x) (settled y sum level top n) ≡ settled y sum level top (n + 1)
unfolding count_sample
count_sample-next x y sum level top n h k = rw (next_count n k) (rw (not_first n h) refl)

count_sample-first :
    (x top : ℕ) (f : Filter)
    → f.n ≡ pos 0
    → f.s ≡ pos top
    → count_sample (pos x) f ≡ settled x x 0 top 1
unfolding count_sample
count_sample-first x top f hn hs = rw hn (rw (next_count 0 (omega arith)) (rw hs refl))

-- `filter` answers a number between its last output and the sample, as long as both are numbers of
-- s32_t that are not negative, and remembers it: whatever order the number of samples and the size
-- of the numbers ask for, no sum overflows.
pub filter-Between :
    (x y : ℕ) (f : Filter)
    → Remembers f y
    → y < 2 ^ 31
    → x < 2 ^ 31
    → (z : ℕ) × ((filter (pos x) f).0 ≡ pos z) × Remembers (filter (pos x) f).1 z × Between y x z
unfolding filter
filter-Between x y f r hy hx = rw r.is (
    rw (count_sample-next x y r.sum r.level r.top r.n r.n_in.0 r.n_in.1)
      (counted_lem x y r.sum r.level r.top (r.n + 1) r.window r.top_in (omega arith) hy hx))

settle_at :
    (x z : ℕ) (r : ℤ × Filter)
    → r.0 ≡ pos z
    → Remembers r.1 z
    → Between x x z
    → (r.0 ≡ pos x) × Remembers r.1 x
settle_at x z r out remembers between = rw⁻¹ same (out, remembers)
  where
    same : z ≡ x
    same = ground (arith, between)

-- The first sample passes unchanged.
pub filter_first :
    (x top : ℕ) (f : Filter)
    → f.n ≡ pos 0
    → f.s ≡ pos top
    → top ≤ 30
    → x < 2 ^ 31
    → ((filter (pos x) f).0 ≡ pos x) × Remembers (filter (pos x) f).1 x
unfolding filter
filter_first x top f hn hs ht hx = rw (count_sample-first x top f hn hs) (
    let (z, out, remembers, between) =
      counted_lem x x x 0 top 1 (omega arith) ht (omega arith) hx hx in
    settle_at x z _ out remembers between)

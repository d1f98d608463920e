-- ===== src/Servo/Smooth/Samples.antt =====
-- A run of `filter` of src/servo.c over a list of samples.
use ptpd_lwip.Servo.Smooth.Between.{Remembers, filter_first, filter-Between}
use ptpd_lwip.Servo.{filter}
use ptpd_lwip.Types.DataSet.{Filter}
use ptpd_lwip.Prelude.Int.{ℤ, pos}
use ptpd_lwip.Prelude.{arith, ◌≤◌, ◌<◌, ℕ, List, ◌∷◌, ◌≡◌, ◌^◌, []}

-- The outputs on the samples, in order.
unfoldable pub outputs : List ℕ → Filter → List ℤ
outputs [] f = []
outputs (x ∷ xs) f = let r = filter (pos x) f in r.0 ∷ outputs xs r.1

abbrev pub AllIn : ℕ → ℕ → List ℕ → Type 0
AllIn lo hi [] = 0 ≤ 0
AllIn lo hi (x ∷ xs) = (lo ≤ x) × (x ≤ hi) × AllIn lo hi xs

abbrev pub AllOut : ℕ → ℕ → List ℤ → Type 0
AllOut lo hi [] = 0 ≤ 0
AllOut lo hi (z ∷ zs) = ((n : ℕ) × (z ≡ pos n) × (lo ≤ n) × (n ≤ hi)) × AllOut lo hi zs

outputs-AllOut :
    (lo hi : ℕ) (xs : List ℕ) (y : ℕ) (f : Filter)
    → hi < 2 ^ 31
    → lo ≤ y
    → y ≤ hi
    → Remembers f y
    → AllIn lo hi xs
    → AllOut lo hi (outputs xs f)
unfolding outputs
outputs-AllOut lo hi [] y f h low high r all = omega arith
outputs-AllOut lo hi (x ∷ xs) y f h low high r (xlow, xhigh, all) =
    let (z, out, remembers, between) = filter-Between x y f r (omega arith) (omega arith) in
    (
      (z, out, ground (arith, between), ground (arith, between)),
      outputs-AllOut lo hi xs z _ h (ground (arith, between)) (ground (arith, between)) remembers
          all,
    )

-- Over any run of samples between two bounds within s32_t, neither of them negative, a filter that
-- starts afresh, at an order of 30 at most, answers numbers between the same bounds.
pub outputs_between :
    (lo hi top : ℕ) (xs : List ℕ) (f : Filter)
    → hi < 2 ^ 31
    → f.n ≡ pos 0
    → f.s ≡ pos top
    → top ≤ 30
    → AllIn lo hi xs
    → AllOut lo hi (outputs xs f)
unfolding outputs
outputs_between lo hi top [] f h fresh order small all = omega arith
outputs_between lo hi top (x ∷ xs) f h fresh order small (xlow, xhigh, all) =
    let (out, remembers) = filter_first x top f fresh order small (omega arith) in
    ((x, out, xlow, xhigh), outputs-AllOut lo hi xs x _ h xlow xhigh remembers all)

-- ===== src/Prelude/Int.antt =====
-- Signed integers over the native numbers, with C's division and remainder by a positive number.
use ptpd_lwip.Prelude.{
  ℕ, suc, ◌+◌, ◌-◌, ◌*◌, ◌/◌, ◌%◌, ◌≤◌, ◌<◌, ◌≡◌, Bool, arith, ltb, leb, ◌==◌, if◌then◌else◌, true,
  ◌↔◌, ◌⊎◌, ◌^◌,
}

-- `negsuc n` is -(n + 1).
pub data ℤ : Type 0 where
  pos : ℕ → ℤ
  negsuc : ℕ → ℤ

abbrev pub pos_part : ℤ → ℕ
pos_part (pos n) = n
pos_part (negsuc n) = 0

abbrev pub neg_part : ℤ → ℕ
neg_part (pos n) = 0
neg_part (negsuc n) = suc n

abbrev pub sub_ℕ : ℕ → ℕ → ℤ
sub_ℕ a b = if leb b a then pos (a - b) else negsuc (b - a - 1)

infixl 65 ◌+ℤ◌ ◌-ℤ◌
infixl 70 ◌*ℤ◌
infix 50 ◌≤ℤ◌ ◌<ℤ◌
unfoldable pub ◌+ℤ◌ : ℤ → ℤ → ℤ
a +ℤ b = sub_ℕ (pos_part a + pos_part b) (neg_part a + neg_part b)

unfoldable pub ◌-ℤ◌ : ℤ → ℤ → ℤ
a -ℤ b = sub_ℕ (pos_part a + neg_part b) (neg_part a + pos_part b)

-- An integer times a natural number.
unfoldable pub ◌*ℤ◌ : ℤ → ℕ → ℤ
a *ℤ n = sub_ℕ (pos_part a * n) (neg_part a * n)

-- C's `a / n` and `a % n` for a positive `n`: the quotient is rounded towards zero.
unfoldable pub tdiv : ℤ → ℕ → ℤ
tdiv a n = sub_ℕ (pos_part a / n) (neg_part a / n)

unfoldable pub tmod : ℤ → ℕ → ℤ
tmod a n = sub_ℕ (pos_part a % n) (neg_part a % n)

abbrev pub ◌≤ℤ◌ : ℤ → ℤ → Type 0
a ≤ℤ b = pos_part a + neg_part b ≤ pos_part b + neg_part a

abbrev pub ◌<ℤ◌ : ℤ → ℤ → Type 0
a <ℤ b = pos_part a + neg_part b < pos_part b + neg_part a

abbrev pub ltb_ℤ : ℤ → ℤ → Bool
ltb_ℤ a b = ltb (pos_part a + neg_part b) (pos_part b + neg_part a)

abbrev pub eqb_ℤ : ℤ → ℤ → Bool
eqb_ℤ a b = pos_part a + neg_part b == pos_part b + neg_part a

abbrev pub neg_ℤ : ℤ → ℤ
neg_ℤ a = pos 0 -ℤ a

-- An arithmetic right shift: the quotient by a power of two, rounded down.
abbrev pub shr_ℤ : ℤ → ℕ → ℤ
shr_ℤ (pos n) k = pos (n / 2 ^ k)
shr_ℤ (negsuc n) k = negsuc (n / 2 ^ k)

-- What `omega` needs to know of the operations while they are shut.
pub +ℤ_parts :
    (a b : ℤ)
    → pos_part (a +ℤ b) + neg_part a + neg_part b ≡ neg_part (a +ℤ b) + pos_part a + pos_part b
unfolding ◌+ℤ◌
+ℤ_parts a b = ground arith

pub -ℤ_parts :
    (a b : ℤ)
    → pos_part (a -ℤ b) + neg_part a + pos_part b ≡ neg_part (a -ℤ b) + pos_part a + neg_part b
unfolding ◌-ℤ◌
-ℤ_parts a b = ground arith

pub *ℤ_parts :
    (a : ℤ) (n : ℕ) → (pos_part (a *ℤ n) ≡ pos_part a * n) × (neg_part (a *ℤ n) ≡ neg_part a * n)
unfolding ◌*ℤ◌
*ℤ_parts (pos a) n = ground arith
*ℤ_parts (negsuc a) n = ground arith

pub tdiv_parts :
    (a : ℤ) (n : ℕ)
    → (pos_part (tdiv a n) ≡ pos_part a / n) × (neg_part (tdiv a n) ≡ neg_part a / n)
unfolding tdiv
tdiv_parts (pos a) n = ground arith
tdiv_parts (negsuc a) n = ground arith

pub tmod_parts :
    (a : ℤ) (n : ℕ)
    → (pos_part (tmod a n) ≡ pos_part a % n) × (neg_part (tmod a n) ≡ neg_part a % n)
unfolding tmod
tmod_parts (pos a) n = ground arith
tmod_parts (negsuc a) n = ground arith

pub eq_of_parts : (a b : ℤ) → pos_part a + neg_part b ≡ pos_part b + neg_part a → a ≡ b
eq_of_parts a b h = ground arith

pub eqb_ℤ_iff : (a b : ℤ) → (eqb_ℤ a b ≡ true) ↔ (a ≡ b)
eqb_ℤ_iff a b = ground arith

pub one_sign : (a : ℤ) → (pos_part a ≡ 0) ⊎ (neg_part a ≡ 0)
one_sign a = ground arith

pub ruleset int_laws =
    (arith, +ℤ_parts, -ℤ_parts, *ℤ_parts, tdiv_parts, tmod_parts, eq_of_parts, one_sign)

pub +ℤ-sub_cancel : (a b : ℤ) → a +ℤ b -ℤ b ≡ a
+ℤ-sub_cancel a b = omega int_laws

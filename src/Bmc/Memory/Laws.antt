-- ===== src/Bmc/Memory/Laws.antt =====
-- `memcmp` on arrays of one length, as the comparisons of src/bmc.c use it.
use ptpd_lwip.Prelude.{
  List, suc, ℕ, ◌≡◌, length, ◌∷◌, ◌⊎◌, zero, inr, arith, inl, [], refl, if◌then◌else◌, ltb,
}
use ptpd_lwip.Prelude.Int.{ℤ, pos, negsuc}
use ptpd_lwip.Bmc.Memory.{memcmp}

abbrev pub negate : ℤ → ℤ
negate (pos zero) = pos 0
negate (pos (suc n)) = negsuc n
negate (negsuc n) = pos (suc n)

pub memcmp-sign :
    (xs ys : List ℕ) → (memcmp xs ys ≡ negsuc 0) ⊎ (memcmp xs ys ≡ pos 0) ⊎ (memcmp xs ys ≡ pos 1)
unfolding memcmp
memcmp-sign [] ys = inr (inl refl)
memcmp-sign (x ∷ xs) [] = inr (inl refl)
memcmp-sign (x ∷ xs) (y ∷ ys) = ground (arith, memcmp-sign xs ys)

pub memcmp-swap : (xs ys : List ℕ) → memcmp ys xs ≡ negate (memcmp xs ys)
unfolding memcmp
memcmp-swap [] [] = refl
memcmp-swap [] (y ∷ ys) = refl
memcmp-swap (x ∷ xs) [] = refl
memcmp-swap (x ∷ xs) (y ∷ ys) = ground (arith, memcmp-swap xs ys)

pub memcmp-eq : (xs ys : List ℕ) → length xs ≡ length ys → memcmp xs ys ≡ pos 0 → xs ≡ ys
unfolding memcmp
memcmp-eq [] [] l h = refl
memcmp-eq [] (y ∷ ys) l h = absurd (omega arith)
memcmp-eq (x ∷ xs) [] l h = absurd (omega arith)
memcmp-eq (x ∷ xs) (y ∷ ys) l h = ground (arith, memcmp-eq xs ys)

pub memcmp_self : (xs : List ℕ) → memcmp xs xs ≡ pos 0
unfolding memcmp
memcmp_self [] = refl
memcmp_self (x ∷ xs) = ground (arith, memcmp_self xs)

pub memcmp_trans :
    (xs ys zs : List ℕ)
    → length xs ≡ length ys
    → length ys ≡ length zs
    → memcmp xs ys ≡ negsuc 0
    → memcmp ys zs ≡ negsuc 0
    → memcmp xs zs ≡ negsuc 0
unfolding memcmp
memcmp_trans [] ys zs l m h k = cc
memcmp_trans (x ∷ xs) [] zs l m h k = cc
memcmp_trans (x ∷ xs) (y ∷ ys) [] l m h k = cc
memcmp_trans (x ∷ xs) (y ∷ ys) (z ∷ zs) l m h k =
    ground (arith, memcmp_trans xs ys zs, memcmp-eq xs ys, memcmp-eq ys zs)

pub memcmp-cons :
    (x y : ℕ) (xs ys : List ℕ)
    → memcmp (x ∷ xs) (y ∷ ys)
      ≡ (if ltb x y then negsuc 0 else if ltb y x then pos 1 else memcmp xs ys)
unfolding memcmp
memcmp-cons x y xs ys = refl

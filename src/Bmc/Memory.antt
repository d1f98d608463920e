-- ===== src/Bmc/Memory.antt =====
-- `memcmp` on arrays of octets: the sign of the first difference.
pub mod Laws
use ptpd_lwip.Prelude.Int.{ℤ, pos, negsuc}
use ptpd_lwip.Prelude.{ℕ, List, ◌∷◌, if◌then◌else◌, ltb, []}

unfoldable pub memcmp : List ℕ → List ℕ → ℤ
memcmp [] ys = pos 0
memcmp (x ∷ xs) [] = pos 0
memcmp (x ∷ xs) (y ∷ ys) =
    let rest = memcmp xs ys in if ltb x y then negsuc 0 else if ltb y x then pos 1 else rest

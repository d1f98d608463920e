-- ===== src/Prelude/Word.antt =====
-- Fixed-width integers: the value that an assignment to an integer of `w` bits stores.
use ptpd_lwip.Prelude.{ℕ, ◌-◌, ◌/◌, ◌%◌, ◌^◌, ◌≤◌, ◌<◌, ◌≡◌, arith, ltb, if◌then◌else◌}
use ptpd_lwip.Prelude.Int.{ℤ, pos, negsuc, pos_part, neg_part, sub_ℕ}

-- The remainder of an integer on division by a power of two, which is its bit pattern.
unfoldable pub residue : ℤ → ℕ → ℕ
residue (pos n) m = n % m
residue (negsuc n) m = m - 1 - n % m

-- The signed number that a bit pattern below `m` stands for.
unfoldable pub signed : ℕ → ℕ → ℤ
signed x m = if ltb x (m / 2) then pos x else sub_ℕ x m

abbrev pub u8 : ℤ → ℕ
u8 z = residue z (2 ^ 8)

abbrev pub u16 : ℤ → ℕ
u16 z = residue z (2 ^ 16)

abbrev pub u32 : ℤ → ℕ
u32 z = residue z (2 ^ 32)

unfoldable pub s8 : ℤ → ℤ
unfolding residue signed
s8 z = signed (residue z (2 ^ 8)) (2 ^ 8)

unfoldable pub s16 : ℤ → ℤ
unfolding residue signed
s16 z = signed (residue z (2 ^ 16)) (2 ^ 16)

unfoldable pub s32 : ℤ → ℤ
unfolding residue signed
s32 z = signed (residue z (2 ^ 32)) (2 ^ 32)

unfoldable pub s64 : ℤ → ℤ
unfolding residue signed
s64 z = signed (residue z (2 ^ 64)) (2 ^ 64)

abbrev pub IsS8 : ℤ → Type 0
IsS8 z = (pos_part z < 128) × (neg_part z ≤ 128)

abbrev pub IsS16 : ℤ → Type 0
IsS16 z = (pos_part z < 32768) × (neg_part z ≤ 32768)

abbrev pub IsS32 : ℤ → Type 0
IsS32 z = (pos_part z < 2147483648) × (neg_part z ≤ 2147483648)

abbrev pub IsS64 : ℤ → Type 0
IsS64 z = (pos_part z < 2 ^ 63) × (neg_part z ≤ 2 ^ 63)

pub s8-eq : (z : ℤ) → IsS8 z → s8 z ≡ z
unfolding s8
s8-eq z h = ground arith

pub s16-eq : (z : ℤ) → IsS16 z → s16 z ≡ z
unfolding s16
s16-eq z h = ground arith

pub s32-eq : (z : ℤ) → IsS32 z → s32 z ≡ z
unfolding s32
s32-eq z h = ground arith

pub s64-eq : (z : ℤ) → IsS64 z → s64 z ≡ z
unfolding s64
s64-eq z h = ground arith

pub s16-IsS16 : (z : ℤ) → IsS16 (s16 z)
unfolding s16
s16-IsS16 z = ground arith

pub s32-IsS32 : (z : ℤ) → IsS32 (s32 z)
unfolding s32
s32-IsS32 z = ground arith

-- ===== src/Msg/Octets.antt =====
-- Numbers taken apart into octets and put together again, for the buffers of src/msg.c.
use ptpd_lwip.Prelude.Int.{ℤ, pos, negsuc}
use ptpd_lwip.Prelude.Word.{residue, s16, u32, IsS16, u16}
use ptpd_lwip.Prelude.{ℕ, ◌<◌, ◌^◌, ◌/◌, ◌*◌, arith, ◌≡◌, ◌+◌, ◌%◌}

pub join16 : (v : ℕ) → v < 2 ^ 16 → v / 256 * 256 + v % 256 ≡ v
join16 v h = omega arith

pub join32 :
    (v : ℕ)
    → v < 2 ^ 32
    → (v / 2 ^ 16 / 256 * 256 + v / 2 ^ 16 % 256) * 2 ^ 16
        + (v % 2 ^ 16 / 256 * 256 + v % 2 ^ 16 % 256)
      ≡ v
join32 v h = omega arith

pub u16-lt : (z : ℤ) → u16 z < 2 ^ 16
unfolding residue
u16-lt (pos n) = omega arith
u16-lt (negsuc n) = omega arith

pub s16-u16 : (z : ℤ) → IsS16 z → s16 (pos (u16 z)) ≡ z
unfolding s16
s16-u16 z h = ground arith

-- A signed field goes out and comes back.
pub back16 : (z : ℤ) → IsS16 z → s16 (pos (u16 z / 256 * 256 + u16 z % 256)) ≡ z
back16 z h = rw (join16 (u16 z) (u16-lt z)) (s16-u16 z h)

pub u32-lt : (z : ℤ) → u32 z < 2 ^ 32
unfolding residue
u32-lt (pos n) = omega arith
u32-lt (negsuc n) = omega arith

pub s16-u16_wrap : (z : ℤ) → s16 (pos (u16 z)) ≡ s16 z
unfolding s16
s16-u16_wrap z = ground arith

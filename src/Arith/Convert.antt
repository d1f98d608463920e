-- ===== src/Arith/Convert.antt =====
-- Conversions to and from timeInternal_t in src/arith.c.
use ptpd_lwip.Arith.Normal.{IsNormal}
use ptpd_lwip.Prelude.{◌<◌, ◌≡◌, ◌⊎◌, ◌^◌, arith, ℕ, ◌/◌, suc, ◌∙◌}
use ptpd_lwip.Types.Time.{total, TimeInternal, Timestamp, IsTime, timestamp, time}
use ptpd_lwip.Prelude.Word.{residue, s32, s64, s32-eq, s64-eq}
use ptpd_lwip.Arith.{
  scaled_nanoseconds_to_internal_time, to_internal_time, from_internal_time, int_max,
}
use ptpd_lwip.Prelude.Int.{int_laws, ℤ, neg_part, tdiv, tmod, pos_part, pos, negsuc, neg_ℤ}

-- Whole nanoseconds below 2^47, split into seconds and the rest, on either side of zero.
split_seconds :
    (m : ℕ)
    → m < 2 ^ 47
    → let s = tdiv (pos m) 1000000000 in
      let r = tmod (pos m) 1000000000 in
      IsNormal (time (s32 s) (s32 r))
      × (total (time (s32 s) (s32 r)) ≡ pos m)
      × IsNormal (time (s32 (neg_ℤ s)) (s32 (neg_ℤ r)))
      × (total (time (s32 (neg_ℤ s)) (s32 (neg_ℤ r))) ≡ neg_ℤ (pos m))
unfolding total
split_seconds m h =
    let s = tdiv (pos m) 1000000000 in
    let r = tmod (pos m) 1000000000 in
    rw (s32-eq s (omega int_laws)) (
      rw (s32-eq r (omega int_laws)) (
        rw (s32-eq (neg_ℤ s) (omega int_laws)) (
          rw (s32-eq (neg_ℤ r) (omega int_laws))
            (omega int_laws, omega int_laws, omega int_laws, omega int_laws))))

scaled-pos :
    (n : ℕ)
    → scaled_nanoseconds_to_internal_time (pos n)
      ≡ time (s32 (tdiv (pos (n / 65536)) 1000000000)) (s32 (tmod (pos (n / 65536)) 1000000000))
unfolding scaled_nanoseconds_to_internal_time
scaled-pos n = ground arith

negated : (n : ℕ) → suc n < 2 ^ 63 → s64 (neg_ℤ (negsuc n)) ≡ pos (suc n)
negated n h = s64-eq (neg_ℤ (negsuc n)) (omega int_laws) ∙ omega int_laws

scaled-negsuc :
    (n : ℕ)
    → suc n < 2 ^ 63
    → scaled_nanoseconds_to_internal_time (negsuc n)
      ≡ time
          (s32 (neg_ℤ (tdiv (pos (suc n / 65536)) 1000000000)))
          (s32 (neg_ℤ (tmod (pos (suc n / 65536)) 1000000000)))
unfolding scaled_nanoseconds_to_internal_time
scaled-negsuc n h = ground (arith, negated n h)

-- Scaled nanoseconds become their whole nanoseconds, the fraction dropped towards zero, as a normal
-- time. The one value of s64_t left out is INT64_MIN, whose negation is not a number of s64_t.
pub scaled-total :
    (n : ℤ)
    → pos_part n < 2 ^ 63
    → neg_part n < 2 ^ 63
    → IsNormal (scaled_nanoseconds_to_internal_time n)
      × (total (scaled_nanoseconds_to_internal_time n) ≡ tdiv n 65536)
scaled-total (pos n) h k =
    let (normal, keep, _, _) = split_seconds (n / 65536) (omega arith) in
    rw (scaled-pos n) (normal, keep ∙ omega int_laws)
scaled-total (negsuc n) h k =
    let (_, _, normal, keep) = split_seconds (suc n / 65536) (omega arith) in
    rw (scaled-negsuc n k) (normal, keep ∙ omega int_laws)

-- A time that is not negative is written as a timestamp and read back unchanged, whatever the
-- timestamp and the time held before, unless its seconds are the last of s32_t.
pub to_internal_time-from_internal_time :
    (t before : TimeInternal) (external : Timestamp)
    → neg_part t.seconds ≡ 0
    → pos_part t.seconds < int_max
    → neg_part t.nanoseconds ≡ 0
    → pos_part t.nanoseconds < 2 ^ 31
    → to_internal_time before (from_internal_time t external) ≡ t
unfolding to_internal_time from_internal_time s32 residue
to_internal_time-from_internal_time t before external h1 h2 h3 h4 = ground arith

-- A timestamp within the signed range is read and written back, its upper 16 bits of seconds
-- cleared.
pub from_internal_time-to_internal_time :
    (x external : Timestamp) (before : TimeInternal)
    → x.seconds_field.lsb < int_max
    → x.nanoseconds_field < 2 ^ 31
    → from_internal_time (to_internal_time before x) external
      ≡ timestamp 0 x.seconds_field.lsb x.nanoseconds_field
unfolding to_internal_time from_internal_time s32 residue
from_internal_time-to_internal_time x external before h k = ground arith

-- A negative field stops `fromInternalTime`: the timestamp is left as it was.
pub from_internal_time_negative :
    (t : TimeInternal) (external : Timestamp)
    → IsTime t
    → (0 < neg_part t.seconds) ⊎ (0 < neg_part t.nanoseconds)
    → from_internal_time t external ≡ external
unfolding from_internal_time residue
from_internal_time_negative t external v h = ground arith

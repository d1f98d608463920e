-- ===== src/Arith/Examples.antt =====
-- Runs of src/arith.c and instances of the theorems about it.
use ptpd_lwip.Prelude.Word.{s32, s64, residue, signed}
use ptpd_lwip.Arith.Convert.{to_internal_time-from_internal_time, scaled-total}
use ptpd_lwip.Types.Time.{TimeInternal, total, time, timestamp}
use ptpd_lwip.Prelude.{arith, ◌≡◌, refl}
use ptpd_lwip.Prelude.Int.{◌+ℤ◌, ◌-ℤ◌, tdiv, pos, negsuc, ◌*ℤ◌, tmod}
use ptpd_lwip.Arith.{
  add_time, from_internal_time, to_internal_time, normalize_time, sub_time, floor_log2, div2_time,
  scaled_nanoseconds_to_internal_time, descent,
}
use ptpd_lwip.Arith.Normal.{DifferenceFits, IsNormal, SumFits, sub_time-total, add_time-total}

arithmetic : Unit {0}
unfolding normalize_time add_time sub_time div2_time scaled_nanoseconds_to_internal_time
    from_internal_time to_internal_time floor_log2 descent total s32 s64 residue signed ◌+ℤ◌ ◌-ℤ◌
    ◌*ℤ◌ tdiv tmod
arithmetic = tt

abbrev late : TimeInternal
late = time (pos 3) (pos 999999999)

abbrev early : TimeInternal
early = time (negsuc 1) (negsuc 499999999)

runs :
    (add_time late early ≡ time (pos 1) (pos 499999999))
    × (sub_time early late ≡ time (negsuc 5) (negsuc 499999998))
    × (div2_time late ≡ time (pos 1) (pos 999999999))
    × (scaled_nanoseconds_to_internal_time (negsuc 131071) ≡ time (pos 0) (negsuc 1))
    × (floor_log2 1000000 ≡ pos 19)
    × (floor_log2 0 ≡ negsuc 0)
unfolding arithmetic
runs = (refl, refl, refl, refl, refl, refl)

late-early_fit : SumFits late early
unfolding ◌+ℤ◌
late-early_fit = omega arith

add_time-total_example :
    IsNormal (add_time late early) × (total (add_time late early) ≡ total late +ℤ total early)
add_time-total_example = add_time-total late early late-early_fit

late-early_differ : DifferenceFits late early
unfolding ◌-ℤ◌
late-early_differ = omega arith

sub_time-total_example :
    IsNormal (sub_time late early) × (total (sub_time late early) ≡ total late -ℤ total early)
sub_time-total_example = sub_time-total late early late-early_differ

scaled-total_example :
    IsNormal (scaled_nanoseconds_to_internal_time (negsuc 131071))
    × (total (scaled_nanoseconds_to_internal_time (negsuc 131071)) ≡ tdiv (negsuc 131071) 65536)
scaled-total_example = scaled-total (negsuc 131071) (omega arith) (omega arith)

to_internal_time-from_internal_time_example :
    to_internal_time early (from_internal_time late (timestamp 7 0 0)) ≡ late
to_internal_time-from_internal_time_example =
    to_internal_time-from_internal_time late early (timestamp 7 0 0) (omega arith) (omega arith)
      (omega arith) (omega arith)

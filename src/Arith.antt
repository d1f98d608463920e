-- ===== src/Arith.antt =====
-- src/arith.c. A function that writes through a pointer returns what it leaves there.
pub mod Normal
pub mod Convert
pub mod Log2
mod Examples
use ptpd_lwip.Prelude.{ℕ, ◌+◌, ◌/◌, ◌^◌, Bool, ◌&&◌, ◌||◌, ltb, leb, ◌==◌, if◌then◌else◌}
use ptpd_lwip.Prelude.Int.{ℤ, pos, negsuc, ◌+ℤ◌, ◌-ℤ◌, ◌*ℤ◌, tdiv, tmod, ltb_ℤ, neg_ℤ, shr_ℤ}
use ptpd_lwip.Prelude.Word.{u32, s32, s64}
use ptpd_lwip.Types.Time.{TimeInternal, Timestamp, time, timestamp}

abbrev pub int_max : ℕ
int_max = 2147483647

-- The two stores once the sign is known; `sign * x` is x or -x.
store_scaled : Bool → ℤ → TimeInternal
store_scaled negative nanoseconds =
    let ns = shr_ℤ nanoseconds 16 in
    let s = tdiv ns 1000000000 in
    let r = tmod ns 1000000000 in
    if negative then time (s32 (neg_ℤ s)) (s32 (neg_ℤ r)) else time (s32 s) (s32 r)

unfoldable pub scaled_nanoseconds_to_internal_time : ℤ → TimeInternal
unfolding store_scaled
scaled_nanoseconds_to_internal_time n =
    let negative = ltb_ℤ n (pos 0) in store_scaled negative (if negative then s64 (neg_ℤ n) else n)

-- `x & ~INT_MAX` keeps the top bit of the 32.
abbrev pub top_bit : ℤ → Bool
top_bit z = leb (2 ^ 31) (u32 z)

-- `external` is what stands there before the call, which the first branch leaves.
unfoldable pub from_internal_time : TimeInternal → Timestamp → Timestamp
from_internal_time internal external =
    if top_bit internal.seconds || top_bit internal.nanoseconds
    then external
    else timestamp 0 (u32 internal.seconds) (u32 internal.nanoseconds)

unfoldable pub to_internal_time : TimeInternal → Timestamp → TimeInternal
to_internal_time internal external =
    if ltb external.seconds_field.lsb int_max
    then time (s32 (pos external.seconds_field.lsb)) (s32 (pos external.nanoseconds_field))
    else internal

-- The two assignments at the head of `normalizeTime`.
carry_seconds : TimeInternal → TimeInternal
carry_seconds r =
    time (s32 (r.seconds +ℤ tdiv r.nanoseconds 1000000000))
      (s32 (r.nanoseconds -ℤ tdiv r.nanoseconds 1000000000 *ℤ 1000000000))

-- The `if` at its end.
same_signs : TimeInternal → TimeInternal
same_signs r =
    if ltb_ℤ (pos 0) r.seconds && ltb_ℤ r.nanoseconds (pos 0)
    then time (s32 (r.seconds -ℤ pos 1)) (s32 (r.nanoseconds +ℤ pos 1000000000))
    else if ltb_ℤ r.seconds (pos 0) && ltb_ℤ (pos 0) r.nanoseconds
    then time (s32 (r.seconds +ℤ pos 1)) (s32 (r.nanoseconds -ℤ pos 1000000000))
    else r

unfoldable pub normalize_time : TimeInternal → TimeInternal
unfolding carry_seconds same_signs
normalize_time r = same_signs (carry_seconds r)

unfoldable pub add_time : TimeInternal → TimeInternal → TimeInternal
unfolding normalize_time
add_time x y =
    normalize_time (time (s32 (x.seconds +ℤ y.seconds)) (s32 (x.nanoseconds +ℤ y.nanoseconds)))

unfoldable pub sub_time : TimeInternal → TimeInternal → TimeInternal
unfolding normalize_time
sub_time x y =
    normalize_time (time (s32 (x.seconds -ℤ y.seconds)) (s32 (x.nanoseconds -ℤ y.nanoseconds)))

unfoldable pub div2_time : TimeInternal → TimeInternal
unfolding normalize_time
div2_time r =
    let n = s32 (r.nanoseconds +ℤ tmod r.seconds 2 *ℤ 1000000000) in
    normalize_time (time (s32 (tdiv r.seconds 2)) (s32 (tdiv n 2)))

-- One line of the descent: `if (n >= 1<<k) { n >>= k; pos += k; }`.
descend : ℕ → ℕ × ℕ → ℕ × ℕ
descend k (n, p) = if leb (2 ^ k) n then (n / 2 ^ k, p + k) else (n, p)

-- The five lines in order; the last one's shift of `n`, which the source leaves out, is not read.
unfoldable pub descent : ℕ → ℕ × ℕ
unfolding descend
descent n = descend 1 (descend 2 (descend 4 (descend 8 (descend 16 (n, 0)))))

unfoldable pub floor_log2 : ℕ → ℤ
floor_log2 n = if n == 0 then negsuc 0 else pos (descent n).1

-- ===== src/Arith/Normal.antt =====
-- `normalizeTime`, and the sums and differences that end in it.
use ptpd_lwip.Prelude.{◌<◌, ◌≡◌, ◌⊎◌, arith, ◌∙◌, ap}
use ptpd_lwip.Prelude.Int.{
  pos, pos_part, neg_part, ◌+ℤ◌, ◌-ℤ◌, ◌*ℤ◌, tdiv, int_laws, +ℤ_parts, -ℤ_parts, ℤ, one_sign, tmod,
  +ℤ-sub_cancel,
}
use ptpd_lwip.Prelude.Word.{IsS32, s32-eq}
use ptpd_lwip.Types.Time.{TimeInternal, total, time}
use ptpd_lwip.Arith.{carry_seconds, same_signs, normalize_time, add_time, sub_time, div2_time}

-- Less than a second of nanoseconds, on the same side of zero as the seconds.
pub record IsNormal (t : TimeInternal) : Type 0 where
  pub below : (pos_part t.nanoseconds < 1000000000) × (neg_part t.nanoseconds < 1000000000)
  pub signs :
      ((neg_part t.seconds ≡ 0) × (neg_part t.nanoseconds ≡ 0))
      ⊎ ((pos_part t.seconds ≡ 0) × (pos_part t.nanoseconds ≡ 0))

-- The carry out of the nanoseconds leaves the seconds in range.
abbrev pub CarryFits : TimeInternal → Type 0
CarryFits t =
    IsS32 t.nanoseconds × (pos_part t.seconds < 2147483646) × (neg_part t.seconds < 2147483646)

carry_lem :
    (t : TimeInternal)
    → CarryFits t
    → (total (carry_seconds t) ≡ total t)
      × (pos_part (carry_seconds t).nanoseconds < 1000000000)
      × (neg_part (carry_seconds t).nanoseconds < 1000000000)
      × (pos_part (carry_seconds t).seconds < 2147483648)
      × (neg_part (carry_seconds t).seconds < 2147483648)
unfolding carry_seconds total
carry_lem t h = rw (s32-eq (t.seconds +ℤ tdiv t.nanoseconds 1000000000) (omega int_laws)) (
    rw (s32-eq (t.nanoseconds -ℤ tdiv t.nanoseconds 1000000000 *ℤ 1000000000) (omega int_laws))
      (omega int_laws, omega int_laws, omega int_laws, omega int_laws, omega int_laws))

total-borrow :
    (s n : ℤ)
    → (total (time (s -ℤ pos 1) (n +ℤ pos 1000000000)) ≡ total (time s n))
      × (total (time (s +ℤ pos 1) (n -ℤ pos 1000000000)) ≡ total (time s n))
unfolding total
total-borrow s n = (omega int_laws, omega int_laws)

same_signs_lem :
    (t : TimeInternal)
    → pos_part t.seconds < 2147483648
    → neg_part t.seconds < 2147483648
    → pos_part t.nanoseconds < 1000000000
    → neg_part t.nanoseconds < 1000000000
    → IsNormal (same_signs t) × (total (same_signs t) ≡ total t)
unfolding same_signs
same_signs_lem t h1 h2 h3 h4 = ground (
  arith,
  s32-eq (t.seconds -ℤ pos 1),
  s32-eq (t.nanoseconds +ℤ pos 1000000000),
  s32-eq (t.seconds +ℤ pos 1),
  s32-eq (t.nanoseconds -ℤ pos 1000000000),
  -ℤ_parts t.seconds (pos 1),
  +ℤ_parts t.seconds (pos 1),
  -ℤ_parts t.nanoseconds (pos 1000000000),
  +ℤ_parts t.nanoseconds (pos 1000000000),
  one_sign (t.seconds -ℤ pos 1),
  one_sign (t.seconds +ℤ pos 1),
  one_sign (t.nanoseconds -ℤ pos 1000000000),
  one_sign (t.nanoseconds +ℤ pos 1000000000),
  total-borrow t.seconds t.nanoseconds,
)

-- `normalizeTime` keeps the number of nanoseconds that the pair stands for, and leaves less than
-- a second of nanoseconds whose sign is not opposite to that of the seconds. The nanoseconds given
-- are any s32_t and the seconds are at least two away from the ends of s32_t.
pub normalize_time-IsNormal :
    (t : TimeInternal)
    → CarryFits t
    → IsNormal (normalize_time t) × (total (normalize_time t) ≡ total t)
unfolding normalize_time
normalize_time-IsNormal t h =
    let (keep, ns_pos, ns_neg, s_pos, s_neg) = carry_lem t h in
    let (normal, keep') = same_signs_lem (carry_seconds t) s_pos s_neg ns_pos ns_neg in
    (normal, keep' ∙ keep)

-- Times whose sum, field by field, stays in s32_t.
pub record SumFits (x y : TimeInternal) : Type 0 where
  pub seconds_fit :
      (pos_part (x.seconds +ℤ y.seconds) < 2147483646)
      × (neg_part (x.seconds +ℤ y.seconds) < 2147483646)
  pub nanoseconds_fit : IsS32 (x.nanoseconds +ℤ y.nanoseconds)

pub record DifferenceFits (x y : TimeInternal) : Type 0 where
  pub seconds_fit :
      (pos_part (x.seconds -ℤ y.seconds) < 2147483646)
      × (neg_part (x.seconds -ℤ y.seconds) < 2147483646)
  pub nanoseconds_fit : IsS32 (x.nanoseconds -ℤ y.nanoseconds)

total-plus :
    (x y : TimeInternal)
    → total (time (x.seconds +ℤ y.seconds) (x.nanoseconds +ℤ y.nanoseconds)) ≡ total x +ℤ total y
unfolding total
total-plus x y = omega int_laws

total-minus :
    (x y : TimeInternal)
    → total (time (x.seconds -ℤ y.seconds) (x.nanoseconds -ℤ y.nanoseconds)) ≡ total x -ℤ total y
unfolding total
total-minus x y = omega int_laws

-- `addTime` adds the nanoseconds that the two times stand for and returns a normal time, as long as
-- the sums of the fields stay in s32_t (those of the seconds at least two away from its ends).
pub add_time-total :
    (x y : TimeInternal)
    → SumFits x y
    → IsNormal (add_time x y) × (total (add_time x y) ≡ total x +ℤ total y)
unfolding add_time
add_time-total x y f = rw (s32-eq (x.seconds +ℤ y.seconds) (omega arith)) (
    rw (s32-eq (x.nanoseconds +ℤ y.nanoseconds) f.nanoseconds_fit) (
      let (normal, keep) =
        normalize_time-IsNormal sum (f.nanoseconds_fit, f.seconds_fit.0, f.seconds_fit.1) in
      (normal, keep ∙ total-plus x y)))
  where
    sum : TimeInternal
    sum = time (x.seconds +ℤ y.seconds) (x.nanoseconds +ℤ y.nanoseconds)

-- `subTime` subtracts the nanoseconds that the two times stand for and returns a normal time, as
-- long as the differences of the fields stay in s32_t (those of the seconds at least two away from
-- its ends).
pub sub_time-total :
    (x y : TimeInternal)
    → DifferenceFits x y
    → IsNormal (sub_time x y) × (total (sub_time x y) ≡ total x -ℤ total y)
unfolding sub_time
sub_time-total x y f = rw (s32-eq (x.seconds -ℤ y.seconds) (omega arith)) (
    rw (s32-eq (x.nanoseconds -ℤ y.nanoseconds) f.nanoseconds_fit) (
      let (normal, keep) =
        normalize_time-IsNormal difference (f.nanoseconds_fit, f.seconds_fit.0, f.seconds_fit.1) in
      (normal, keep ∙ total-minus x y)))
  where
    difference : TimeInternal
    difference = time (x.seconds -ℤ y.seconds) (x.nanoseconds -ℤ y.nanoseconds)

-- A number of nanoseconds is the total of one normal time at most.
pub IsNormal-unique : (x y : TimeInternal) → IsNormal x → IsNormal y → total x ≡ total y → x ≡ y
unfolding total
IsNormal-unique x y nx ny e = ground (arith, same_seconds, same_nanoseconds)
  where
    same_seconds : x.seconds ≡ y.seconds
    same_seconds = omega (int_laws, ap pos_part e, ap neg_part e)

    same_nanoseconds : x.nanoseconds ≡ y.nanoseconds
    same_nanoseconds = omega (int_laws, ap pos_part e, ap neg_part e)

-- Subtracting an added time gives the first one back, if that was normal and the sums and
-- differences of the fields stay in s32_t.
pub sub_time-add_time :
    (x y : TimeInternal)
    → IsNormal x
    → SumFits x y
    → DifferenceFits (add_time x y) y
    → sub_time (add_time x y) y ≡ x
sub_time-add_time x y nx f g =
    let (normal, keep) = sub_time-total (add_time x y) y g in
    let (_, sum) = add_time-total x y f in
    IsNormal-unique (sub_time (add_time x y) y) x normal nx
      (keep ∙ ap (λ z. z -ℤ total y) sum ∙ +ℤ-sub_cancel (total x) (total y))

-- `div2Time` halves the nanoseconds that a normal time of s32_t seconds stands for, rounding towards
-- zero, and returns a normal time.
pub div2_time-total :
    (t : TimeInternal)
    → IsNormal t
    → IsS32 t.seconds
    → IsNormal (div2_time t) × (total (div2_time t) ≡ tdiv (total t) 2)
unfolding div2_time
div2_time-total t nt ht = rw (s32-eq odd (omega int_laws)) (
    rw (s32-eq (tdiv t.seconds 2) (omega int_laws)) (
      rw (s32-eq (tdiv odd 2) (omega int_laws)) (
        let (normal, keep) = normalize_time-IsNormal half (omega int_laws) in
        (normal, keep ∙ halves))))
  where
    odd : ℤ
    odd = t.nanoseconds +ℤ tmod t.seconds 2 *ℤ 1000000000

    half : TimeInternal
    half = time (tdiv t.seconds 2) (tdiv odd 2)

    halves : total half ≡ tdiv (total t) 2
    halves = unfold total in omega int_laws

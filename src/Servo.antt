-- ===== src/Servo.antt =====
-- src/servo.c: the offset and delay filters, and the controller that steers the clock. The counts
-- of the shifts in the code are not negative; `ai` and `ap` are positive, as `ptpd_thread` sets
-- them.
pub mod Offset
pub mod Controller
pub mod Window
pub mod Smooth
mod Examples
use ptpd_lwip.Types.Clock.{PtpClock}
use ptpd_lwip.SysTime.{adj_freq}
use ptpd_lwip.Arith.{floor_log2}
use ptpd_lwip.Types.Time.{zero_time}
use ptpd_lwip.Prelude.Word.{s32, s16, u32}
use ptpd_lwip.Prelude.{if◌then◌else◌, ◌^◌, false}
use ptpd_lwip.Types.System.{System, log, net_empty_event_q, on_clock}
use ptpd_lwip.Types.DataSet.{Filter}
use ptpd_lwip.Prelude.Int.{neg_ℤ, pos_part, neg_part, ℤ, pos, ◌-ℤ◌, ltb_ℤ, ◌+ℤ◌, eqb_ℤ, shr_ℤ, ◌*ℤ◌}
use ptpd_lwip.Types.Opt.Default
use ptpd_lwip.Types.Opt.Event

abbrev pub max : ℤ → ℤ → ℤ
max a b = if ltb_ℤ b a then a else b

abbrev pub min : ℤ → ℤ → ℤ
min a b = if ltb_ℤ b a then b else a

-- The assignments of `initClock`.
clear_vars : PtpClock → PtpClock
clear_vars c =
    let slv =
      if Default.parents_stats then record (c.slv_filt) { n = pos 0; s = pos 6 } else c.slv_filt in
    record c {
      tms = zero_time;
      observed_drift = pos 0;
      owd_filt = record (c.owd_filt) { n = pos 0; s = c.servo.s_delay };
      ofm_filt = record (c.ofm_filt) { n = pos 0; s = c.servo.s_offset };
      slv_filt = slv;
      offset_history0 = if Default.parents_stats then pos 0 else c.offset_history0;
      offset_history1 = if Default.parents_stats then pos 0 else c.offset_history1;
      waiting_for_follow_up = false;
      waiting_for_pdelay_resp_follow_up = false;
      pdelay_t1 = zero_time;
      pdelay_t2 = zero_time;
      pdelay_t3 = zero_time;
      pdelay_t4 = zero_time;
      parent_ds = record (c.parent_ds) {
        parent_stats = false;
        observed_parent_clock_phase_change_rate = pos 0;
        observed_parent_offset_scaled_log_variance = pos 0;
      };
    }

-- initClock
unfoldable pub init_clock : System → System
unfolding clear_vars
init_clock s =
    let cleared = on_clock clear_vars s in
    log net_empty_event_q (if s.clock.servo.no_adjust then cleared else adj_freq (pos 0) cleared)

-- order: the exponent of the leading bit of the magnitude, and 0 for 0.
unfoldable pub order : ℤ → ℤ
order n =
    let m = if ltb_ℤ n (pos 0) then s32 (neg_ℤ n) else n in
    if eqb_ℤ m (pos 0) then pos 0 else floor_log2 (u32 m)

-- `1<<s`
abbrev pub one_shl : ℤ → ℤ
one_shl s = s32 (pos (2 ^ pos_part s))

-- The sample is counted, and the first one starts the filter.
count_sample : ℤ → Filter → Filter
count_sample current f =
    let n = s32 (f.n +ℤ pos 1) in
    if eqb_ℤ n (pos 1)
    then record f { n = n; y_prev = current; y_sum = current; s_prev = pos 0 }
    else record f { n = n }

-- The order of the filter while it has few samples, and the number of samples, which stops there.
speed_up : Filter → ℤ × Filter
speed_up f = if ltb_ℤ f.n (one_shl f.s) then (order f.n, f) else (f.s, record f { n = one_shl f.s })

-- The sum follows a change of the order to `s`.
rescale : ℤ → Filter → ℤ
rescale s f =
    if ltb_ℤ s f.s_prev
    then shr_ℤ f.y_sum (pos_part (f.s_prev -ℤ s))
    else if ltb_ℤ f.s_prev s
    then s32 (f.y_sum *ℤ 2 ^ pos_part (s -ℤ f.s_prev))
    else f.y_sum

-- The step of the filter at the order `s`.
smooth : ℤ → ℤ → Filter → ℤ × Filter
smooth current s f =
    let y_sum = s32 (rescale s f +ℤ (current -ℤ f.y_prev)) in
    let y = shr_ℤ y_sum (pos_part s) in (y, record f { y_sum = y_sum; y_prev = y; s_prev = s16 s })

-- The rest of `filter`, after the sample is counted: the order is bounded by the size of the
-- numbers too.
filter_counted : ℤ → Filter → ℤ × Filter
filter_counted current counted =
    let (s, f) = speed_up counted in
    smooth current (min s (pos 30 -ℤ order (max f.y_prev current))) f

-- filter: the smoothed sample, and the filter.
unfoldable pub filter : ℤ → Filter → ℤ × Filter
unfolding count_sample speed_up smooth rescale filter_counted
filter current filt = filter_counted current (count_sample current filt)

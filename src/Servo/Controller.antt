-- ===== src/Servo/Controller.antt =====
-- `updateClock` of src/servo.c: the controller.
pub mod Bounds
pub mod Step
pub mod Frame
use ptpd_lwip.Types.Time.{TimeInternal}
use ptpd_lwip.Arith.{sub_time}
use ptpd_lwip.Servo.{init_clock, filter, order}
use ptpd_lwip.Types.Opt.{adj_freq_max}
use ptpd_lwip.Servo.Offset.{abs}
use ptpd_lwip.Prelude.{if◌then◌else◌, not, ◌||◌, ltb, ◌^◌, ◌*◌, true, Bool}
use ptpd_lwip.Prelude.Word.{s32, s16}
use ptpd_lwip.SysTime.{get_time, clamp_adj, adj_freq, set_time}
use ptpd_lwip.Types.System.{Port, System, on_clock}
use ptpd_lwip.Types.Clock.{PtpClock}
use ptpd_lwip.Types.Opt.Default
use ptpd_lwip.Prelude.Int.{
  pos_part, neg_part, neg_ℤ, ℤ, tdiv, ◌-ℤ◌, ltb_ℤ, ◌+ℤ◌, ◌*ℤ◌, pos, eqb_ℤ, shr_ℤ,
}

-- The offset is too large to be adjusted: the clock is set, or driven at the bound.
step_clock : Port → System → System
step_clock p s =
    let offset = s.clock.current_ds.offset_from_master in
    let (now, s1) = get_time p s in
    let adj =
      if ltb_ℤ (pos 0) offset.nanoseconds then pos adj_freq_max else neg_ℤ (pos adj_freq_max) in
    if s.clock.servo.no_adjust
    then s
    else if s.clock.servo.no_reset_clock
    then adj_freq (neg_ℤ adj) s
    else init_clock (set_time (sub_time now offset) s1)

-- offsetNorm, for a sync interval of one second.
offset_norm : PtpClock → ℤ
offset_norm c =
    let l = c.port_ds.log_sync_interval in
    let ns = c.current_ds.offset_from_master.nanoseconds in
    if ltb_ℤ (pos 0) l
    then shr_ℤ ns (pos_part l)
    else if ltb_ℤ l (pos 0)
    then s32 (ns *ℤ 2 ^ neg_part l)
    else ns

-- The accumulator, clamped.
next_drift : ℤ → PtpClock → ℤ
next_drift norm c = clamp_adj (s32 (c.observed_drift +ℤ tdiv norm (pos_part c.servo.ai)))

-- The statistics on the parent, which DEFAULT_PARENTS_STATS switches.
parent_statistics : PtpClock → PtpClock
parent_statistics c =
    let ns = c.current_ds.offset_from_master.nanoseconds in
    let a = s32 (s32 (c.offset_history1 -ℤ c.offset_history0 *ℤ 2) +ℤ ns) in
    let square = s32 (pos (abs a * abs a)) in
    let (variance, filt) = filter (s32 (order square *ℤ 2 ^ 8)) c.slv_filt in
    if Default.parents_stats
    then record c {
      parent_ds = record (c.parent_ds) {
        parent_stats = true;
        observed_parent_clock_phase_change_rate = s32 (c.observed_drift *ℤ 1100);
        observed_parent_offset_scaled_log_variance = s16 (variance +ℤ pos 17000);
      };
      offset_history1 = c.offset_history0;
      offset_history0 = s16 ns;
      slv_filt = filt;
    }
    else c

-- The controller proper.
steer_clock : System → System
steer_clock s =
    let norm = offset_norm s.clock in
    let drift = next_drift norm s.clock in
    let s1 = on_clock (λ c. record c { observed_drift = drift }) s in
    let adj = s32 (tdiv norm (pos_part s.clock.servo.ap) +ℤ drift) in
    on_clock parent_statistics
      (if s.clock.servo.no_adjust then s1 else adj_freq (s32 (neg_ℤ adj)) s1)

-- The first test: seconds, or more nanoseconds than MAX_ADJ_OFFSET_NS.
is_out_of_reach : TimeInternal → Bool
is_out_of_reach offset =
    not (eqb_ℤ offset.seconds (pos 0)) || ltb Default.max_adj_offset_ns (abs offset.nanoseconds)

-- updateClock
unfoldable pub update_clock : Port → System → System
unfolding step_clock steer_clock offset_norm next_drift parent_statistics is_out_of_reach
update_clock p s =
    if is_out_of_reach s.clock.current_ds.offset_from_master then step_clock p s else steer_clock s

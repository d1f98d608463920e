-- ===== src/SysTime.antt =====
-- src/sys_time.c: the clock of the port, and random numbers. `setTime` leaves the upper 16 bits of
-- the seconds unset, so they are not part of the call.
use ptpd_lwip.Types.Opt.{adj_freq_max}
use ptpd_lwip.Prelude.Word.{s32, u32}
use ptpd_lwip.Prelude.{if◌then◌else◌, ℕ, ◌%◌}
use ptpd_lwip.Types.Time.{TimeInternal, time}
use ptpd_lwip.Types.System.{
  Port, System, log, lwip_ptp_set_time, lwip_ptp_update_fine, rand, lwip_ptp_get_time,
}
use ptpd_lwip.Prelude.Int.{neg_ℤ, ℤ, ltb_ℤ, pos}

-- getTime
unfoldable pub get_time : Port → System → TimeInternal × System
get_time p s =
    let now = p.time_now s.calls in
    (
      time (s32 (pos now.seconds_field.lsb)) (s32 (pos now.nanoseconds_field)),
      log lwip_ptp_get_time s,
    )

-- setTime
unfoldable pub set_time : TimeInternal → System → System
set_time t s = log (lwip_ptp_set_time (u32 t.seconds) (u32 t.nanoseconds)) s

-- The two bounds that adjFreq sets.
abbrev pub clamp_adj : ℤ → ℤ
clamp_adj adj =
    if ltb_ℤ (pos adj_freq_max) adj
    then pos adj_freq_max
    else if ltb_ℤ adj (neg_ℤ (pos adj_freq_max))
    then neg_ℤ (pos adj_freq_max)
    else adj

unfoldable pub adj_freq : ℤ → System → System
adj_freq adj s = log (lwip_ptp_update_fine (clamp_adj adj)) s

-- getRand, with `rand()` a natural number. For `rand_max` 0, where the division of the code is
-- undefined, this is the random number itself.
unfoldable pub get_rand : Port → ℕ → System → ℕ × System
get_rand p rand_max s = (p.random s.calls % rand_max, log rand s)

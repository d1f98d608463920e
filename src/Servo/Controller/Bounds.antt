-- ===== src/Servo/Controller/Bounds.antt =====
-- What `updateClock` asks of the port, and the drift that it accumulates.
use ptpd_lwip.Prelude.Word.{s32}
use ptpd_lwip.Types.Clock.{PtpClock}
use ptpd_lwip.Servo.Controller.{
  steer_clock, step_clock, update_clock, next_drift, parent_statistics, offset_norm,
}
use ptpd_lwip.Types.Opt.{adj_freq_max}
use ptpd_lwip.Servo.Offset.{abs}
use ptpd_lwip.Servo.{init_clock}
use ptpd_lwip.SysTime.{adj_freq, clamp_adj, get_time, set_time}
use ptpd_lwip.Types.System.{
  System, Call, lwip_ptp_update_fine, log, net_empty_event_q, Port, lwip_ptp_get_time,
  lwip_ptp_set_time,
}
use ptpd_lwip.Prelude.{arith, ◌≤◌, List, ◌∷◌, [], Bool, if◌then◌else◌, true, false}
use ptpd_lwip.Prelude.Int.{pos_part, ℤ, ◌-ℤ◌, pos, ◌+ℤ◌, tdiv}

-- A call that adjusts the frequency stays within ADJ_FREQ_MAX.
abbrev pub IsGentle : Call → Type 0
IsGentle (lwip_ptp_update_fine adj) = abs adj ≤ adj_freq_max
IsGentle _ = 0 ≤ 0

abbrev pub AreGentle : List Call → Type 0
AreGentle [] = 0 ≤ 0
AreGentle (call ∷ calls) = IsGentle call × AreGentle calls

pub record IsTame (s : System) : Type 0 where
  pub drift_in : abs s.clock.observed_drift ≤ adj_freq_max
  pub calls_in : AreGentle s.calls

either-IsTame : (b : Bool) (x y : System) → IsTame x → IsTame y → IsTame (if b then x else y)
either-IsTame true x y tx ty = tx
either-IsTame false x y tx ty = ty

clamp_lem : (adj : ℤ) → abs (clamp_adj adj) ≤ adj_freq_max
unfolding ◌-ℤ◌
clamp_lem adj = ground arith

adj_freq-IsTame : (adj : ℤ) (s : System) → IsTame s → IsTame (adj_freq adj s)
unfolding adj_freq
adj_freq-IsTame adj s t = record { drift_in = t.drift_in; calls_in = (clamp_lem adj, t.calls_in) }

-- A system with the calls of a tame one and a drift of its own within the bound.
with_clock-IsTame :
    (s : System) (c : PtpClock)
    → abs c.observed_drift ≤ adj_freq_max
    → IsTame s
    → IsTame (record s { clock = c })
with_clock-IsTame s c h t = record { drift_in = h; calls_in = t.calls_in }

log-IsTame : (call : Call) (s : System) → IsGentle call → IsTame s → IsTame (log call s)
log-IsTame call s g t = record { drift_in = t.drift_in; calls_in = (g, t.calls_in) }

still : 0 ≤ 0
still = omega arith

pub init_clock-IsTame : (s : System) → IsTame s → IsTame (init_clock s)
unfolding init_clock
init_clock-IsTame s t =
    let cleared = with_clock-IsTame s _ (ground arith) t in
    log-IsTame net_empty_event_q _ still
      (either-IsTame s.clock.servo.no_adjust _ _ cleared (adj_freq-IsTame (pos 0) _ cleared))

next_drift_lem : (norm : ℤ) (c : PtpClock) → abs (next_drift norm c) ≤ adj_freq_max
unfolding next_drift
next_drift_lem norm c = clamp_lem (s32 (c.observed_drift +ℤ tdiv norm (pos_part c.servo.ai)))

steer_clock-IsTame : (s : System) → IsTame s → IsTame (steer_clock s)
unfolding steer_clock parent_statistics
steer_clock-IsTame s t =
    let drifted = with_clock-IsTame s _ (next_drift_lem (offset_norm s.clock) s.clock) t in
    let steered = either-IsTame s.clock.servo.no_adjust _ _ drifted (adj_freq-IsTame _ _ drifted) in
    with_clock-IsTame _ _ steered.drift_in steered

step_clock-IsTame : (p : Port) (s : System) → IsTame s → IsTame (step_clock p s)
unfolding step_clock get_time set_time
step_clock-IsTame p s t =
    let read = log-IsTame lwip_ptp_get_time s still t in
    let reset = log-IsTame (lwip_ptp_set_time _ _) _ still read in
    either-IsTame s.clock.servo.no_adjust _ _ t (
      either-IsTame s.clock.servo.no_reset_clock _ _ (adj_freq-IsTame _ s t)
        (init_clock-IsTame _ reset))

-- If the accumulated drift and all adjustments of the frequency asked of the port so far are within
-- ADJ_FREQ_MAX, they are so after `updateClock`, whatever the offset, the gains and the intervals
-- are.
pub update_clock-IsTame : (p : Port) (s : System) → IsTame s → IsTame (update_clock p s)
unfolding update_clock
update_clock-IsTame p s t = either-IsTame _ _ _ (step_clock-IsTame p s t) (steer_clock-IsTame s t)

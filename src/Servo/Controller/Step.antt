-- ===== src/Servo/Controller/Step.antt =====
-- What `updateClock` does beyond the reach of the controller, and without the right to adjust.
use ptpd_lwip.Arith.{sub_time}
use ptpd_lwip.Prelude.Word.{u32}
use ptpd_lwip.Arith.Normal.{DifferenceFits, IsNormal, sub_time-total}
use ptpd_lwip.Servo.{init_clock}
use ptpd_lwip.SysTime.{get_time, set_time, adj_freq}
use ptpd_lwip.Types.Time.{TimeInternal, total}
use ptpd_lwip.Types.System.{
  Port, System, net_empty_event_q, lwip_ptp_update_fine, lwip_ptp_set_time, lwip_ptp_get_time, log,
}
use ptpd_lwip.Servo.Controller.{update_clock, step_clock, steer_clock, is_out_of_reach}
use ptpd_lwip.Prelude.{arith, ◌≡◌, refl, true, ◌≢◌, false, ◌∷◌}
use ptpd_lwip.Prelude.Int.{pos, ◌-ℤ◌}

-- The time that the port answers, as getTime reads it.
abbrev pub current_time : Port → System → TimeInternal
current_time p s = (get_time p s).0

-- Without the right to adjust, `updateClock` makes no call of the port.
pub update_clock_no_adjust :
    (p : Port) (s : System) → s.clock.servo.no_adjust ≡ true → (update_clock p s).calls ≡ s.calls
unfolding update_clock step_clock steer_clock
update_clock_no_adjust p s fixed = ground (arith, fixed)

-- The system that `initClock` starts to level the clock of.
reset_system : Port → System → System
reset_system p s =
    set_time (sub_time (current_time p s) s.clock.current_ds.offset_from_master)
      (log lwip_ptp_get_time s)

far-is_out_of_reach : (t : TimeInternal) → t.seconds ≢ pos 0 → is_out_of_reach t ≡ true
unfolding is_out_of_reach
far-is_out_of_reach t far = ground arith

update_clock-far :
    (p : Port) (s : System)
    → s.clock.current_ds.offset_from_master.seconds ≢ pos 0
    → s.clock.servo.no_adjust ≡ false
    → s.clock.servo.no_reset_clock ≡ false
    → update_clock p s ≡ init_clock (reset_system p s)
unfolding update_clock step_clock reset_system get_time
update_clock-far p s far free reset =
    rw (far-is_out_of_reach s.clock.current_ds.offset_from_master far) (rw free (rw reset refl))

init_clock-free :
    (s : System)
    → s.clock.servo.no_adjust ≡ false
    → ((init_clock s).calls ≡ net_empty_event_q ∷ lwip_ptp_update_fine (pos 0) ∷ s.calls)
      × ((init_clock s).clock.observed_drift ≡ pos 0)
      × ((init_clock s).clock.ofm_filt.n ≡ pos 0)
      × ((init_clock s).clock.owd_filt.n ≡ pos 0)
unfolding init_clock adj_freq ◌-ℤ◌
init_clock-free s free = rw free (refl, refl, refl, refl)

-- With an offset of a second or more, with the right to adjust and to reset the clock, and as long
-- as the time less the offset stays in s32_t,
-- `updateClock` sets the clock to the time it reads less the offset, as a normal time, levels its
-- frequency and drops the packets that wait; the drift and both filters start over.
pub update_clock_resets :
    (p : Port) (s : System)
    → s.clock.current_ds.offset_from_master.seconds ≢ pos 0
    → s.clock.servo.no_adjust ≡ false
    → s.clock.servo.no_reset_clock ≡ false
    → DifferenceFits (current_time p s) s.clock.current_ds.offset_from_master
    → (t : TimeInternal) × IsNormal t
      × (total t ≡ total (current_time p s) -ℤ total s.clock.current_ds.offset_from_master)
      × ((update_clock p s).calls
          ≡ net_empty_event_q
            ∷ lwip_ptp_update_fine (pos 0)
            ∷ lwip_ptp_set_time (u32 t.seconds) (u32 t.nanoseconds)
            ∷ lwip_ptp_get_time
            ∷ s.calls)
      × ((update_clock p s).clock.observed_drift ≡ pos 0)
      × ((update_clock p s).clock.ofm_filt.n ≡ pos 0)
      × ((update_clock p s).clock.owd_filt.n ≡ pos 0)
unfolding reset_system set_time
update_clock_resets p s far free reset fits =
    let offset = s.clock.current_ds.offset_from_master in
    let (normal, keep) = sub_time-total (current_time p s) offset fits in
    rw (update_clock-far p s far free reset) (
      let (calls, drift, ofm, owd) = init_clock-free (reset_system p s) free in
      (sub_time (current_time p s) offset, normal, keep, calls, drift, ofm, owd))

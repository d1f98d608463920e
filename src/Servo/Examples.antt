-- ===== src/Servo/Examples.antt =====
-- Tests of src/servo.c, and instances of its theorems.
use ptpd_lwip.Types.Opt.{slave, set_flag}
use ptpd_lwip.Servo.Offset.Total.{OffsetFits, update_offset-total}
use ptpd_lwip.Servo.Controller.Step.{current_time, update_clock_resets}
use ptpd_lwip.Prelude.Word.{s32, residue, s16, u32}
use ptpd_lwip.Servo.Smooth.{settled}
use ptpd_lwip.Types.Zero.{zero_filter}
use ptpd_lwip.Types.Sample.{ahead_system, sample_surroundings, sample_clock}
use ptpd_lwip.Arith.Normal.{IsNormal, DifferenceFits}
use ptpd_lwip.Arith.{sub_time, floor_log2, descent}
use ptpd_lwip.Types.Time.{TimeInternal, total, time, zero_time}
use ptpd_lwip.SysTime.{get_time}
use ptpd_lwip.Types.System.{
  net_empty_event_q, lwip_ptp_update_fine, lwip_ptp_set_time, lwip_ptp_get_time,
}
use ptpd_lwip.Types.DataSet.{Filter}
use ptpd_lwip.Servo.Controller.Bounds.{IsTame, update_clock-IsTame}
use ptpd_lwip.Servo.Controller.{update_clock}
use ptpd_lwip.Servo.{filter, order}
use ptpd_lwip.Servo.Smooth.Between.{Remembers}
use ptpd_lwip.Types.Clock.{PtpClock}
use ptpd_lwip.Servo.Offset.{update_offset}
use ptpd_lwip.Servo.Smooth.Samples.{outputs, AllOut, outputs_between}
use ptpd_lwip.Prelude.{arith, ◌≡◌, ◌∷◌, [], refl, ◌≢◌}
use ptpd_lwip.Types.Opt.Event
use ptpd_lwip.Prelude.Int.{◌-ℤ◌, ◌+ℤ◌, pos, tdiv, ◌*ℤ◌}

abbrev fresh_filter : Filter
fresh_filter = record zero_filter { s = pos 6 }

outputs_run :
    outputs (100 ∷ 900 ∷ 500 ∷ 500 ∷ []) fresh_filter ≡ pos 100 ∷ pos 500 ∷ pos 500 ∷ pos 500 ∷ []
unfolding outputs filter order s32 s16 floor_log2 descent ◌+ℤ◌ ◌-ℤ◌ ◌*ℤ◌ residue
outputs_run = refl

outputs_between_example : AllOut 100 900 (outputs (100 ∷ 900 ∷ 500 ∷ []) fresh_filter)
outputs_between_example =
    outputs_between 100 900 6 (100 ∷ 900 ∷ 500 ∷ []) fresh_filter (omega arith) refl refl
      (omega arith)
      (
        omega arith,
        omega arith,
        (omega arith, omega arith, (omega arith, omega arith, omega arith)),
      )

hundred-Remembers : Remembers (settled 100 100 0 6 1) 100
hundred-Remembers = record {
  sum = 100;
  level = 0;
  top = 6;
  n = 1;
  is = refl;
  window = (omega arith, omega arith);
  top_in = omega arith;
  n_in = (omega arith, omega arith);
}

ahead-IsTame : IsTame ahead_system
ahead-IsTame = record { drift_in = omega arith; calls_in = omega arith }

update_clock-IsTame_example : IsTame (update_clock sample_surroundings ahead_system)
update_clock-IsTame_example = update_clock-IsTame sample_surroundings ahead_system ahead-IsTame

ahead-DifferenceFits :
    DifferenceFits (current_time sample_surroundings ahead_system) (time (pos 2) (pos 500000000))
unfolding get_time s32 residue ◌-ℤ◌
ahead-DifferenceFits = record {
  seconds_fit = (omega arith, omega arith);
  nanoseconds_fit = (omega arith, omega arith);
}

update_clock_resets_example :
    (t : TimeInternal) × IsNormal t
    × (total t
        ≡ total (current_time sample_surroundings ahead_system)
          -ℤ total (time (pos 2) (pos 500000000)))
    × ((update_clock sample_surroundings ahead_system).calls
        ≡ net_empty_event_q
          ∷ lwip_ptp_update_fine (pos 0)
          ∷ lwip_ptp_set_time (u32 t.seconds) (u32 t.nanoseconds)
          ∷ lwip_ptp_get_time
          ∷ [])
    × ((update_clock sample_surroundings ahead_system).clock.observed_drift ≡ pos 0)
    × ((update_clock sample_surroundings ahead_system).clock.ofm_filt.n ≡ pos 0)
    × ((update_clock sample_surroundings ahead_system).clock.owd_filt.n ≡ pos 0)
update_clock_resets_example =
    update_clock_resets sample_surroundings ahead_system (λ e. cc) refl refl ahead-DifferenceFits

late-OffsetFits : OffsetFits (time (pos 9) (pos 5)) (time (pos 4) (pos 2)) zero_time sample_clock
unfolding sub_time s32 residue ◌-ℤ◌ ◌+ℤ◌ ◌*ℤ◌ tdiv
late-OffsetFits = record {
  elapsed = record {
    seconds_fit = (omega arith, omega arith);
    nanoseconds_fit = (omega arith, omega arith);
  };
  corrected = record {
    seconds_fit = (omega arith, omega arith);
    nanoseconds_fit = (omega arith, omega arith);
  };
  delayed = record {
    seconds_fit = (omega arith, omega arith);
    nanoseconds_fit = (omega arith, omega arith);
  };
}

abbrev late_clock : PtpClock
late_clock = update_offset (time (pos 9) (pos 5)) (time (pos 4) (pos 2)) zero_time sample_clock

late_apart : late_clock.current_ds.offset_from_master.seconds ≢ pos 0
unfolding update_offset sub_time s32 residue ◌-ℤ◌ ◌+ℤ◌ ◌*ℤ◌ tdiv
late_apart = λ e. cc

update_offset-total_example :
    (total late_clock.current_ds.offset_from_master
      ≡ total (time (pos 9) (pos 5))
        -ℤ total (time (pos 4) (pos 2))
        -ℤ total zero_time
        -ℤ total zero_time)
    × IsNormal late_clock.current_ds.offset_from_master
    × (late_clock.ofm_filt ≡ sample_clock.ofm_filt)
    × (slave ≡ slave → late_clock.events ≡ set_flag sample_clock.events Event.synchronization_fault)
update_offset-total_example =
    update_offset-total (time (pos 9) (pos 5)) (time (pos 4) (pos 2)) zero_time sample_clock
      late-OffsetFits late_apart

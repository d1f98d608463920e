-- ===== src/Servo/Controller/Frame.antt =====
-- The state of the port and its timers under the controller of src/servo.c.
use ptpd_lwip.Types.Time.{TimeInternal}
use ptpd_lwip.Servo.{init_clock}
use ptpd_lwip.Prelude.{List, Bool-cases, refl, inl, inr, Bool, if◌then◌else◌, true, false}
use ptpd_lwip.SysTime.{adj_freq, get_time, set_time}
use ptpd_lwip.Bmc.Spares.{Spares, Spares-trans, spared}
use ptpd_lwip.Servo.Controller.{
  update_clock, step_clock, steer_clock, parent_statistics, is_out_of_reach,
}
use ptpd_lwip.Types.System.{Extends, same_calls, one_more, Port, System, Call, on_clock}

-- The state of the port is left alone, and no call is about a timer.
pub record IsApart (s r : System) : Type 0 where
  pub spares : Spares s.clock r.clock
  pub extends : Extends s.calls r.calls

pub init_clock-IsApart :
    (s : System) → Spares s.clock (init_clock s).clock × Extends s.calls (init_clock s).calls
unfolding init_clock adj_freq
init_clock-IsApart s = elim (Bool-cases s.clock.servo.no_adjust) [
  | inl fixed ↦ rw fixed (spared refl refl refl refl refl refl, one_more _ refl same_calls)
  | inr free ↦
      rw free (spared refl refl refl refl refl refl, one_more _ refl (one_more _ refl same_calls))
]

Extends-trans : {a b c : List Call} → Extends a b → Extends b c → Extends a c
Extends-trans m same_calls = m
Extends-trans m (one_more call quiet n) = one_more call quiet (Extends-trans m n)

-- A test that the code makes.
either :
    {s : System} (b : Bool) {x y : System}
    → IsApart s x
    → IsApart s y
    → IsApart s (if b then x else y)
either true m n = m
either false m n = n

reset-IsApart :
    (p : Port) (t : TimeInternal) (s : System)
    → IsApart s (init_clock (set_time t (get_time p s).1))
unfolding get_time set_time
reset-IsApart p t s =
    let (spares, extends) = init_clock-IsApart (set_time t (get_time p s).1) in
    record {
      spares = spares;
      extends = Extends-trans (one_more _ refl (one_more _ refl same_calls)) extends;
    }

step_clock-IsApart : (p : Port) (s : System) → IsApart s (step_clock p s)
unfolding step_clock adj_freq
step_clock-IsApart p s =
    either s.clock.servo.no_adjust
      (record { spares = spared refl refl refl refl refl refl; extends = same_calls })
      (either s.clock.servo.no_reset_clock
        (record {
          spares = spared refl refl refl refl refl refl;
          extends = one_more _ refl same_calls;
        })
        (reset-IsApart p _ s))

with_statistics-IsApart : {s r : System} → IsApart s r → IsApart s (on_clock parent_statistics r)
unfolding parent_statistics
with_statistics-IsApart apart = record {
  spares = Spares-trans apart.spares (spared refl refl refl refl refl refl);
  extends = apart.extends;
}

steer_clock-IsApart : (s : System) → IsApart s (steer_clock s)
unfolding steer_clock adj_freq
steer_clock-IsApart s = with_statistics-IsApart (
    either s.clock.servo.no_adjust
      (record { spares = spared refl refl refl refl refl refl; extends = same_calls })
      (record {
        spares = spared refl refl refl refl refl refl;
        extends = one_more _ refl same_calls;
      }))

-- The servo does not touch what `Spares` names, and its calls are not about timers.
pub update_clock-IsApart : (p : Port) (s : System) → IsApart s (update_clock p s)
update_clock-IsApart p s =
    unfold update_clock in
    elim (Bool-cases (is_out_of_reach s.clock.current_ds.offset_from_master)) [
      | inl far ↦ rw far (step_clock-IsApart p s)
      | inr near ↦ rw near (steer_clock-IsApart s)
    ]

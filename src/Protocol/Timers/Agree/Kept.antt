-- ===== src/Protocol/Timers/Agree/Kept.antt =====
-- What `toState` of src/protocol.c leaves alone.
use ptpd_lwip.Types.DataSet.{ForeignMasterDs, RunTimeOpts}
use ptpd_lwip.Types.Clock.{PtpClock}
use ptpd_lwip.Protocol.Timers.Agree.{
  state_after, start_passive_timer-clock, start_master_timer-clock, mechanism,
  start_delay_timer-clock, enter-port_ds, leave-keeps,
}
use ptpd_lwip.Types.System.{Port, System, on_clock}
use ptpd_lwip.SysTime.{adj_freq}
use ptpd_lwip.Servo.{init_clock}
use ptpd_lwip.Protocol.{enter_master, enter, to_state, leave}
use ptpd_lwip.Types.Opt.{
  PortState, initializing, listening, faulty, disabled, pre_master, master, passive, uncalibrated,
  slave,
}
use ptpd_lwip.Prelude.{◌≡◌, ap, Bool-cases, inl, true, inr, refl, ◌∙◌}

-- The recommended state after a state is entered, where `r` was recommended.
abbrev pub recommended_after : PortState → PortState → PortState
recommended_after initializing r = initializing
recommended_after listening r = listening
recommended_after st r = r

init_clock-kept :
    (s : System)
    → ((init_clock s).clock.default_ds ≡ s.clock.default_ds)
      × ((init_clock s).clock.recommended_state ≡ s.clock.recommended_state)
unfolding init_clock adj_freq
init_clock-kept s = elim (Bool-cases s.clock.servo.no_adjust) [
  | inl fixed ↦ rw fixed (refl, refl)
  | inr free ↦ rw free (refl, refl)
]

enter_master-kept :
    (p : Port) (s : System)
    → ((enter_master p s).clock.default_ds ≡ s.clock.default_ds)
      × ((enter_master p s).clock.recommended_state ≡ s.clock.recommended_state)
unfolding enter_master
enter_master-kept p s = (
  ap (λ c. c.default_ds) (start_master_timer-clock p (mechanism s) _),
  ap (λ c. c.recommended_state) (start_master_timer-clock p (mechanism s) _),
)

enter-kept :
    (p : Port) (st : PortState) (s : System)
    → ((enter p st s).clock.default_ds ≡ s.clock.default_ds)
      × ((enter p st s).clock.recommended_state ≡ recommended_after st s.clock.recommended_state)
unfolding enter
enter-kept p initializing s = (refl, refl)
enter-kept p faulty s = (refl, refl)
enter-kept p disabled s = (refl, refl)
enter-kept p listening s = (refl, refl)
enter-kept p pre_master s = enter_master-kept p s
enter-kept p master s = enter_master-kept p s
enter-kept p passive s = (
  ap (λ c. c.default_ds) (start_passive_timer-clock p (mechanism s) _),
  ap (λ c. c.recommended_state) (start_passive_timer-clock p (mechanism s) _),
)
enter-kept p uncalibrated s = (
  ap (λ c. c.default_ds) (start_delay_timer-clock p (mechanism s) _),
  ap (λ c. c.recommended_state) (start_delay_timer-clock p (mechanism s) _),
)
enter-kept p slave s = (refl, refl)

-- The state, the default data set and the recommended state after `toState`.
pub to_state-kept :
    (p : Port) (st : PortState) (s : System)
    → ((to_state p st s).clock.port_ds.port_state ≡ state_after st)
      × ((to_state p st s).clock.default_ds ≡ s.clock.default_ds)
      × ((to_state p st s).clock.recommended_state ≡ recommended_after st s.clock.recommended_state)
unfolding to_state
to_state-kept p st s =
    let cur = s.clock.port_ds.port_state in
    let active = on_clock (λ c. record c { message_activity = true }) s in
    let (default, recommended) = enter-kept p st (leave cur st active) in
    (
      (enter-port_ds p st (leave cur st active)).0,
      default ∙ leave-keeps (λ c. c.default_ds) (λ r. (init_clock-kept r).0) cur st active,
      recommended
          ∙ ap (recommended_after st)
              (leave-keeps (λ c. c.recommended_state) (λ r. (init_clock-kept r).1) cur st active),
    )

-- What `toState` does not touch at all.
abbrev untouched : PtpClock → ForeignMasterDs × RunTimeOpts
untouched c = (c.foreign_master_ds, c.rt_opts)

init_clock-untouched : (s : System) → untouched (init_clock s).clock ≡ untouched s.clock
unfolding init_clock adj_freq
init_clock-untouched s = elim (Bool-cases s.clock.servo.no_adjust) [
  | inl fixed ↦ rw fixed refl
  | inr free ↦ rw free refl
]

enter-untouched :
    (p : Port) (st : PortState) (s : System) → untouched (enter p st s).clock ≡ untouched s.clock
unfolding enter enter_master
enter-untouched p initializing s = refl
enter-untouched p faulty s = refl
enter-untouched p disabled s = refl
enter-untouched p listening s = refl
enter-untouched p slave s = refl
enter-untouched p pre_master s = ap untouched (start_master_timer-clock p (mechanism s) _)
enter-untouched p master s = ap untouched (start_master_timer-clock p (mechanism s) _)
enter-untouched p passive s = ap untouched (start_passive_timer-clock p (mechanism s) _)
enter-untouched p uncalibrated s = ap untouched (start_delay_timer-clock p (mechanism s) _)

to_state-untouched :
    (p : Port) (st : PortState) (s : System) → untouched (to_state p st s).clock ≡ untouched s.clock
unfolding to_state
to_state-untouched p st s =
    let cur = s.clock.port_ds.port_state in
    let active = on_clock (λ c. record c { message_activity = true }) s in
    enter-untouched p st (leave cur st active)
    ∙ leave-keeps untouched init_clock-untouched cur st active

-- `toState` leaves the table of foreign masters and the options alone.
pub to_state-table :
    (p : Port) (st : PortState) (s : System)
    → (to_state p st s).clock.foreign_master_ds ≡ s.clock.foreign_master_ds
to_state-table p st s = ap (λ u. u.0) (to_state-untouched p st s)

pub to_state-options :
    (p : Port) (st : PortState) (s : System) → (to_state p st s).clock.rt_opts ≡ s.clock.rt_opts
to_state-options p st s = ap (λ u. u.1) (to_state-untouched p st s)

-- ===== src/Protocol/Timers/Agree.antt =====
-- The timers and the state under `toState` of src/protocol.c.
pub mod Kept
use ptpd_lwip.Types.Clock.{PtpClock}
use ptpd_lwip.Protocol.Timers.{
  running, has_timer, running-start_master, running-start_passive, running-start_delay,
  running-leave,
}
use ptpd_lwip.SysTime.{adj_freq, get_rand}
use ptpd_lwip.Types.System.{System, Port, on_clock}
use ptpd_lwip.Types.Opt.{
  Timer, PortState, master, pre_master, announce_receipt_timer, initializing, faulty, slave,
  disabled, listening, passive, uncalibrated,
}
use ptpd_lwip.Protocol.{
  stop_delay_timer, start_master_timer, start_delay_timer, start_passive_timer, leave, enter,
  leave_follower, enter_master, start_random, is_follower, stop_timer, to_state,
}
use ptpd_lwip.Servo.{init_clock}
use ptpd_lwip.Types.Opt.Default.{e2e, p2p, delay_disabled, DelayMechanism}
use ptpd_lwip.Types.Opt.Default
use ptpd_lwip.Prelude.{
  arith, ◌≡◌, ◌∙◌, Bool-cases, inl, refl, ap, inr, false, ◌≢◌, true, ◌⊎◌, ◌&&◌, sym,
}

-- The state that the tasks on entering `st` set.
abbrev pub state_after : PortState → PortState
state_after pre_master = master
state_after st = st

abbrev pub mechanism : System → DelayMechanism
mechanism s = s.clock.port_ds.delay_mechanism

init_clock-port_ds : (s : System) → (init_clock s).clock.port_ds ≡ s.clock.port_ds
unfolding init_clock adj_freq
init_clock-port_ds s = elim (Bool-cases s.clock.servo.no_adjust) [
  | inl fixed ↦ rw fixed refl
  | inr free ↦ rw free refl
]

stop_delay_timer-clock : (m : DelayMechanism) (s : System) → (stop_delay_timer m s).clock ≡ s.clock
unfolding stop_delay_timer
stop_delay_timer-clock e2e s = refl
stop_delay_timer-clock p2p s = refl
stop_delay_timer-clock delay_disabled s = refl

-- What `initClock` does not touch is not touched on leaving a state.
module _ {ℓ} {B : Type ℓ} (f : PtpClock → B)
    (blind : (s : System) → f (init_clock s).clock ≡ f s.clock) where
  leave_follower-keeps : (s : System) → f (leave_follower s).clock ≡ f s.clock
  unfolding leave_follower
  leave_follower-keeps s =
      blind _ ∙ ap f (stop_delay_timer-clock (mechanism s) (stop_timer announce_receipt_timer s))

  leave-keeps : (cur st : PortState) (s : System) → f (leave cur st s).clock ≡ f s.clock
  unfolding leave
  leave-keeps initializing st s = refl
  leave-keeps faulty st s = refl
  leave-keeps disabled st s = refl
  leave-keeps listening st s = blind s
  leave-keeps pre_master st s = blind s
  leave-keeps master st s = blind s
  leave-keeps passive st s = blind s
  leave-keeps uncalibrated st s = elim (Bool-cases (is_follower st)) [
    | inl stays ↦ rw stays refl
    | inr goes ↦ rw goes (leave_follower-keeps s)
  ]
  leave-keeps slave st s = elim (Bool-cases (is_follower st)) [
    | inl stays ↦ rw stays refl
    | inr goes ↦ rw goes (leave_follower-keeps s)
  ]

leave-port_ds : (cur st : PortState) (s : System) → (leave cur st s).clock.port_ds ≡ s.clock.port_ds
leave-port_ds = leave-keeps (λ c. c.port_ds) init_clock-port_ds

start_delay_timer-clock :
    (p : Port) (m : DelayMechanism) (s : System) → (start_delay_timer p m s).clock ≡ s.clock
unfolding start_delay_timer start_random get_rand
start_delay_timer-clock p e2e s = refl
start_delay_timer-clock p p2p s = refl
start_delay_timer-clock p delay_disabled s = refl

start_passive_timer-clock :
    (p : Port) (m : DelayMechanism) (s : System) → (start_passive_timer p m s).clock ≡ s.clock
unfolding start_passive_timer start_random get_rand
start_passive_timer-clock p e2e s = refl
start_passive_timer-clock p p2p s = refl
start_passive_timer-clock p delay_disabled s = refl

start_master_timer-clock :
    (p : Port) (m : DelayMechanism) (s : System) → (start_master_timer p m s).clock ≡ s.clock
unfolding start_master_timer start_random get_rand
start_master_timer-clock p e2e s = refl
start_master_timer-clock p p2p s = refl
start_master_timer-clock p delay_disabled s = refl

-- The state and the delay mechanism after a state is entered.
enter-port_ds :
    (p : Port) (st : PortState) (s : System)
    → ((enter p st s).clock.port_ds.port_state ≡ state_after st)
      × (mechanism (enter p st s) ≡ mechanism s)
unfolding enter enter_master
enter-port_ds p initializing s = (refl, refl)
enter-port_ds p faulty s = (refl, refl)
enter-port_ds p disabled s = (refl, refl)
enter-port_ds p listening s = (refl, refl)
enter-port_ds p pre_master s =
    (refl, ap (λ c. c.port_ds.delay_mechanism) (start_master_timer-clock p (mechanism s) _))
enter-port_ds p master s =
    (refl, ap (λ c. c.port_ds.delay_mechanism) (start_master_timer-clock p (mechanism s) _))
enter-port_ds p passive s =
    (refl, ap (λ c. c.port_ds.delay_mechanism) (start_passive_timer-clock p (mechanism s) _))
enter-port_ds p uncalibrated s =
    (refl, ap (λ c. c.port_ds.delay_mechanism) (start_delay_timer-clock p (mechanism s) _))
enter-port_ds p slave s = (refl, refl)

module _ (t : Timer) where
  running-enter_master :
      (p : Port) (s : System)
      → running t s.calls ≡ false
      → running t (enter_master p s).calls ≡ has_timer (mechanism s) master t
  unfolding enter_master running
  running-enter_master p s h = running-start_master t p (mechanism s) _ ∙ rw h (ground arith)

  -- A state that is entered when no timer runs, but for SLAVE.
  running-enter :
      (p : Port) (st : PortState) (s : System)
      → running t s.calls ≡ false
      → st ≢ slave
      → running t (enter p st s).calls ≡ has_timer (mechanism s) (state_after st) t
  unfolding enter running
  running-enter p initializing s h k = h
  running-enter p faulty s h k = h
  running-enter p disabled s h k = h
  running-enter p listening s h k = rw h (ground arith)
  running-enter p pre_master s h k = running-enter_master p s h
  running-enter p master s h k = running-enter_master p s h
  running-enter p passive s h k = running-start_passive t p (mechanism s) _ ∙ rw h (ground arith)
  running-enter p uncalibrated s h k = running-start_delay t p (mechanism s) _ ∙ rw h (ground arith)
  running-enter p slave s h k = absurd (k refl)

  -- A port that follows a master and goes on to follow one.
  running-follow :
      (p : Port) (st : PortState) (s : System)
      → running t s.calls ≡ has_timer (mechanism s) slave t
      → (st ≡ uncalibrated) ⊎ (st ≡ slave)
      → running t (enter p st s).calls ≡ has_timer (mechanism s) (state_after st) t
  unfolding enter running
  running-follow p st s h (inl e) =
      rw e (running-start_delay t p (mechanism s) _ ∙ rw h (ground arith))
  running-follow p st s h (inr e) = rw e h

pub follower_cases : (st : PortState) → is_follower st ≡ true → (st ≡ uncalibrated) ⊎ (st ≡ slave)
follower_cases uncalibrated e = inl refl
follower_cases slave e = inr refl
follower_cases initializing e = absurd (ground arith)
follower_cases faulty e = absurd (ground arith)
follower_cases disabled e = absurd (ground arith)
follower_cases listening e = absurd (ground arith)
follower_cases pre_master e = absurd (ground arith)
follower_cases master e = absurd (ground arith)
follower_cases passive e = absurd (ground arith)

leave-follow :
    (cur st : PortState) (s : System)
    → is_follower cur ≡ true
    → is_follower st ≡ true
    → leave cur st s ≡ s
unfolding leave
leave-follow cur st s hc hs = elim (follower_cases cur hc) [
  | inl e ↦ rw e (rw hs refl)
  | inr e ↦ rw e (rw hs refl)
]

has_timer-follow :
    (m : DelayMechanism) (cur : PortState) (t : Timer)
    → is_follower cur ≡ true
    → has_timer m cur t ≡ has_timer m slave t
has_timer-follow m cur t h = elim (follower_cases cur h) [ inl e ↦ rw e refl | inr e ↦ rw e refl ]

-- Exactly the timers of the port's state run.
pub record IsTimed (s : System) : Type 0 where
  pub timers :
      (t : Timer) → running t s.calls ≡ has_timer (mechanism s) s.clock.port_ds.port_state t

-- The tasks on leaving and entering, from a system in which the timers of `cur` run.
change-timers :
    (p : Port) (cur st : PortState) (s : System)
    → (st ≡ slave → is_follower cur ≡ true)
    → ((t : Timer) → running t s.calls ≡ has_timer (mechanism s) cur t)
    → (t : Timer)
    → running t (enter p st (leave cur st s)).calls ≡ has_timer (mechanism s) (state_after st) t
change-timers p cur st s ok h t = elim (Bool-cases (is_follower cur && is_follower st)) [
  | inl stays ↦
      let (hc, hs) = both stays in
      rw (leave-follow cur st s hc hs) (
        running-follow t p st s (h t ∙ has_timer-follow (mechanism s) cur t hc)
          (follower_cases st hs))
  | inr goes ↦
      running-enter t p st (leave cur st s) (running-leave t cur st s (h t) goes) (apart goes)
      ∙ ap (λ d. has_timer d.delay_mechanism (state_after st) t) (leave-port_ds cur st s)
]
  where
    both :
        (is_follower cur && is_follower st) ≡ true
        → (is_follower cur ≡ true) × (is_follower st ≡ true)
    both e = ground arith

    apart : (is_follower cur && is_follower st) ≡ false → st ≢ slave
    apart e same = ground (arith, ok same, rw same at e)

-- `toState` changes to the state that it is given (to MASTER where that is PRE_MASTER). If exactly
-- the timers of the old state run before, then exactly those of the new one run after, whatever the
-- delay mechanism is: SLAVE is to be entered from UNCALIBRATED or SLAVE, as its timers are started
-- by the former.
pub to_state-IsTimed :
    (p : Port) (st : PortState) (s : System)
    → IsTimed s
    → (st ≡ slave → is_follower s.clock.port_ds.port_state ≡ true)
    → ((to_state p st s).clock.port_ds.port_state ≡ state_after st) × IsTimed (to_state p st s)
unfolding to_state
to_state-IsTimed p st s timed ok =
    let cur = s.clock.port_ds.port_state in
    let active = on_clock (λ c. record c { message_activity = true }) s in
    let (at, kept) = enter-port_ds p st (leave cur st active) in
    let same = kept ∙ ap (λ d. d.delay_mechanism) (leave-port_ds cur st active) in
    (
      at,
      record {
        timers = λ t.
            change-timers p cur st active ok timed.timers t
            ∙ ap (λ m. has_timer m (state_after st) t) (sym same)
            ∙ ap (λ q. has_timer (mechanism (enter p st (leave cur st active))) q t) (sym at);
      },
    )

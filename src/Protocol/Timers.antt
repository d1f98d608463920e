-- ===== src/Protocol/Timers.antt =====
-- Which timers run in which state, after `toState` of src/protocol.c.
pub mod Agree
use ptpd_lwip.SysTime.{adj_freq, get_rand}
use ptpd_lwip.Servo.{init_clock}
use ptpd_lwip.Protocol.{
  start_delay_timer, start_master_timer, stop_delay_timer, leave_follower, leave,
  start_passive_timer, start_random, stop_timer, is_follower,
}
use ptpd_lwip.Types.System.{
  Call, lwip_ptp_start_timer, lwip_ptp_stop_timer, lwip_ptp_init_timers, System, Port,
}
use ptpd_lwip.Types.Opt.{
  Timer, PortState, pdelayreq_interval_timer, delayreq_interval_timer, sync_interval_timer,
  announce_receipt_timer, initializing, announce_interval_timer, faulty, qualification_timeout,
  disabled, listening, pre_master, master, passive, uncalibrated, slave,
}
use ptpd_lwip.Types.Opt.Default.{e2e, p2p, delay_disabled, DelayMechanism}
use ptpd_lwip.Prelude.{
  arith, ◌≡◌, Bool, List, ℕ, ◌==◌, false, ◌||◌, ◌∷◌, true, ◌&&◌, not, [], Bool-cases, refl, ◌∙◌,
  inl, inr,
}

abbrev pub timer_number : Timer → ℕ
timer_number pdelayreq_interval_timer = 0
timer_number delayreq_interval_timer = 1
timer_number sync_interval_timer = 2
timer_number announce_receipt_timer = 3
timer_number announce_interval_timer = 4
timer_number qualification_timeout = 5

-- A timer runs when it was started after it was last stopped.
unfoldable pub running : Timer → List Call → Bool
running t [] = false
running t (call ∷ calls) =
    let before = running t calls in
    elim call [
      | lwip_ptp_start_timer u ms ↦ (timer_number t == timer_number u) || before
      | lwip_ptp_stop_timer u ↦ not (timer_number t == timer_number u) && before
      | lwip_ptp_init_timers ↦ false
      | _ ↦ before
    ]

abbrev pub is_peer : DelayMechanism → Bool
is_peer e2e = false
is_peer p2p = true
is_peer delay_disabled = false

-- The timer of the delay mechanism.
abbrev pub is_delay : DelayMechanism → Timer → Bool
is_delay e2e t = timer_number t == 1
is_delay p2p t = timer_number t == 0
is_delay delay_disabled t = false

-- The timers of a state.
abbrev pub has_timer : DelayMechanism → PortState → Timer → Bool
has_timer m initializing t = false
has_timer m faulty t = false
has_timer m disabled t = false
has_timer m listening t = timer_number t == 3
has_timer m pre_master t = timer_number t == 5
has_timer m master t =
    (timer_number t == 2) || (timer_number t == 4) || (is_peer m && (timer_number t == 0))
has_timer m passive t = (timer_number t == 3) || (is_peer m && (timer_number t == 0))
has_timer m uncalibrated t = (timer_number t == 3) || is_delay m t
has_timer m slave t = (timer_number t == 3) || is_delay m t

module _ (t : Timer) where
  running-init_clock : (s : System) → running t (init_clock s).calls ≡ running t s.calls
  unfolding running init_clock adj_freq
  running-init_clock s = elim (Bool-cases s.clock.servo.no_adjust) [
    | inl fixed ↦ rw fixed refl
    | inr free ↦ rw free refl
  ]

  running-stop_delay :
      (m : DelayMechanism) (s : System)
      → running t (stop_delay_timer m s).calls ≡ (not (is_delay m t) && running t s.calls)
  unfolding running stop_delay_timer
  running-stop_delay e2e s = refl
  running-stop_delay p2p s = refl
  running-stop_delay delay_disabled s = refl

  running-start_delay :
      (p : Port) (m : DelayMechanism) (s : System)
      → running t (start_delay_timer p m s).calls ≡ (is_delay m t || running t s.calls)
  unfolding running start_delay_timer start_random get_rand
  running-start_delay p e2e s = refl
  running-start_delay p p2p s = refl
  running-start_delay p delay_disabled s = refl

  running-start_passive :
      (p : Port) (m : DelayMechanism) (s : System)
      → running t (start_passive_timer p m s).calls
        ≡ ((is_peer m && (timer_number t == 0)) || running t s.calls)
  unfolding running start_passive_timer start_random get_rand
  running-start_passive p e2e s = refl
  running-start_passive p p2p s = refl
  running-start_passive p delay_disabled s = refl

  running-start_master :
      (p : Port) (m : DelayMechanism) (s : System)
      → running t (start_master_timer p m s).calls
        ≡ ((is_peer m && (timer_number t == 0)) || running t s.calls)
  unfolding running start_master_timer start_random get_rand
  running-start_master p e2e s = refl
  running-start_master p p2p s = refl
  running-start_master p delay_disabled s = refl

  running-leave_follower :
      (s : System)
      → running t s.calls ≡ has_timer s.clock.port_ds.delay_mechanism slave t
      → running t (leave_follower s).calls ≡ false
  unfolding leave_follower running
  running-leave_follower s h =
      let stopped = stop_timer announce_receipt_timer s in
      running-init_clock (stop_delay_timer s.clock.port_ds.delay_mechanism stopped)
      ∙ running-stop_delay s.clock.port_ds.delay_mechanism stopped
      ∙ rw h (ground arith)

  -- Leaving a state, but for one that the port follows a master in to another such state, stops
  -- the timers of that state.
  running-leave :
      (cur st : PortState) (s : System)
      → running t s.calls ≡ has_timer s.clock.port_ds.delay_mechanism cur t
      → (is_follower cur && is_follower st) ≡ false
      → running t (leave cur st s).calls ≡ false
  unfolding leave running
  running-leave initializing st s h k = h
  running-leave faulty st s h k = h
  running-leave disabled st s h k = h
  running-leave listening st s h k = rw (running-init_clock s) (rw h (ground arith))
  running-leave pre_master st s h k = rw (running-init_clock s) (rw h (ground arith))
  running-leave master st s h k = rw (running-init_clock s) (rw h (ground arith))
  running-leave passive st s h k = rw (running-init_clock s) (rw h (ground arith))
  running-leave uncalibrated st s h k = rw k (running-leave_follower s h)
  running-leave slave st s h k = rw k (running-leave_follower s h)

-- ===== src/Protocol.antt =====
-- src/protocol.c: the states of the port.
pub mod Decide
pub mod Issue
pub mod Handle
pub mod Timers
pub mod Moves
pub mod Receive
pub mod Run
mod Examples
use ptpd_lwip.Prelude.Int.{◌+ℤ◌, pos}
use ptpd_lwip.SysTime.{get_rand}
use ptpd_lwip.Servo.{init_clock}
use ptpd_lwip.Prelude.{Bool, ℕ, ◌*◌, true, ◌+◌, if◌then◌else◌, ◌||◌}
use ptpd_lwip.Types.System.{Port, System, on_clock, log, lwip_ptp_stop_timer, lwip_ptp_start_timer}
use ptpd_lwip.Types.Clock.{PtpClock}
use ptpd_lwip.Types.Opt.{
  PortState, Timer, announce_receipt_timer, pdelayreq_interval_timer, delayreq_interval_timer,
  pow2ms, sync_interval_timer, same_state, announce_interval_timer, initializing, faulty, master,
  uncalibrated, disabled, qualification_timeout, listening, slave, passive, pre_master,
}
use ptpd_lwip.Types.Opt.Default.{e2e, p2p, delay_disabled, DelayMechanism}
use ptpd_lwip.Types.Opt.Default

abbrev pub start_timer : Timer → ℕ → System → System
start_timer t ms s = log (lwip_ptp_start_timer t ms) s

abbrev pub stop_timer : Timer → System → System
stop_timer t s = log (lwip_ptp_stop_timer t) s

abbrev pub set_state : PortState → System → System
set_state st s = on_clock (λ c. record c { port_ds = record (c.port_ds) { port_state = st } }) s

abbrev pub recommend_state : PortState → System → System
recommend_state st s = on_clock (λ c. record c { recommended_state = st }) s

-- The timer of the delay mechanism, which the inner `switch` stops.
stop_delay_timer : DelayMechanism → System → System
stop_delay_timer e2e s = stop_timer delayreq_interval_timer s
stop_delay_timer p2p s = stop_timer pdelayreq_interval_timer s
stop_delay_timer delay_disabled s = s

abbrev pub is_follower : PortState → Bool
is_follower st = same_state st uncalibrated || same_state st slave

-- The tasks on leaving UNCALIBRATED or SLAVE for a state that is neither.
leave_follower : System → System
leave_follower s =
    init_clock
      (stop_delay_timer s.clock.port_ds.delay_mechanism (stop_timer announce_receipt_timer s))

-- The tasks on leaving the first state for the second.
leave : PortState → PortState → System → System
leave master st s =
    stop_timer pdelayreq_interval_timer
      (stop_timer announce_interval_timer (stop_timer sync_interval_timer (init_clock s)))
leave uncalibrated st s = if is_follower st then s else leave_follower s
leave slave st s = if is_follower st then s else leave_follower s
leave passive st s =
    stop_timer announce_receipt_timer (stop_timer pdelayreq_interval_timer (init_clock s))
leave listening st s = stop_timer announce_receipt_timer (init_clock s)
leave pre_master st s = stop_timer qualification_timeout (init_clock s)
leave initializing st s = s
leave faulty st s = s
leave disabled st s = s

-- The time that a port waits for an Announce message.
abbrev pub announce_wait : PtpClock → ℕ
announce_wait c = c.port_ds.announce_receipt_timeout * pow2ms c.port_ds.log_announce_interval

-- LWIP_PTP_START_TIMER with a random time below `rand_max`.
start_random : Port → Timer → ℕ → System → System
start_random p t rand_max s = let (ms, s1) = get_rand p rand_max s in start_timer t ms s1

-- The delay timer of a port that becomes UNCALIBRATED.
start_delay_timer : Port → DelayMechanism → System → System
start_delay_timer p e2e s =
    start_random p delayreq_interval_timer
      (pow2ms (s.clock.port_ds.log_min_delay_req_interval +ℤ pos 1)) s
start_delay_timer p p2p s =
    start_random p pdelayreq_interval_timer
      (pow2ms (s.clock.port_ds.log_min_pdelay_req_interval +ℤ pos 1)) s
start_delay_timer p delay_disabled s = s

-- The peer delay timer of a port that becomes PASSIVE.
start_passive_timer : Port → DelayMechanism → System → System
start_passive_timer p p2p s =
    start_random p pdelayreq_interval_timer
      (pow2ms (s.clock.port_ds.log_min_pdelay_req_interval +ℤ pos 1)) s
start_passive_timer p m s = s

-- The one of a port that becomes MASTER: here the 1 is added to the time.
start_master_timer : Port → DelayMechanism → System → System
start_master_timer p p2p s =
    start_random p pdelayreq_interval_timer (pow2ms s.clock.port_ds.log_min_pdelay_req_interval + 1)
      s
start_master_timer p m s = s

enter_master : Port → System → System
enter_master p s =
    let s1 =
      on_clock
        (λ c. record c {
          port_ds = record (c.port_ds) { log_min_delay_req_interval = Default.delayreq_interval };
        })
        s in
    let s2 = start_timer sync_interval_timer (pow2ms s.clock.port_ds.log_sync_interval) s1 in
    let s3 =
      start_timer announce_interval_timer (pow2ms s.clock.port_ds.log_announce_interval) s2 in
    set_state master (start_master_timer p s.clock.port_ds.delay_mechanism s3)

-- The tasks on entering a state. The case of PRE_MASTER runs into that of MASTER.
enter : Port → PortState → System → System
enter p initializing s = recommend_state initializing (set_state initializing s)
enter p faulty s = set_state faulty s
enter p disabled s = set_state disabled s
enter p listening s =
    recommend_state listening
      (set_state listening (start_timer announce_receipt_timer (announce_wait s.clock) s))
enter p pre_master s = enter_master p s
enter p master s = enter_master p s
enter p passive s = set_state passive (
    start_passive_timer p s.clock.port_ds.delay_mechanism
      (start_timer announce_receipt_timer (announce_wait s.clock) s))
enter p uncalibrated s = set_state uncalibrated (
    start_delay_timer p s.clock.port_ds.delay_mechanism
      (start_timer announce_receipt_timer (announce_wait s.clock) s))
enter p slave s = set_state slave s

-- toState
unfoldable pub to_state : Port → PortState → System → System
unfolding leave leave_follower stop_delay_timer enter enter_master start_random start_delay_timer
    start_passive_timer start_master_timer
to_state p st s =
    let active = on_clock (λ c. record c { message_activity = true }) s in
    enter p st (leave s.clock.port_ds.port_state st active)

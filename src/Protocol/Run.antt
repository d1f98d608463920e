-- ===== src/Protocol/Run.antt =====
-- `doInit` and `doState` of src/protocol.c: a round of the stack.
pub mod Init
pub mod Timed
pub mod Low
pub mod Live
pub mod Sized
pub mod Once
use ptpd_lwip.Msg.Pack.{msg_pack_header}
use ptpd_lwip.Protocol.Receive.{handle}
use ptpd_lwip.Servo.{init_clock}
use ptpd_lwip.Protocol.Issue.{issue_delay_req_timer_expired, issue_announce, on_obuf, issue_sync}
use ptpd_lwip.Protocol.{to_state, recommend_state}
use ptpd_lwip.Protocol.Decide.{follow, decide, is_slave_only}
use ptpd_lwip.Prelude.{Bool, if◌then◌else◌, not, true, false}
use ptpd_lwip.Types.Opt.{
  PortState, Timer, initializing, listening, announce_receipt_timer, announce_interval_timer,
  faulty, master, disabled, uncalibrated, sync_interval_timer, same_state, slave, passive,
  pre_master,
}
use ptpd_lwip.Types.Clock.{PtpClock}
use ptpd_lwip.Types.System.{Port, System, log, on_clock, lwip_ptp_check_timer, lwip_ptp_init_timers}
use ptpd_lwip.Net.Path.{net_init, net_shutdown}
use ptpd_lwip.Bmc.Init.{init_data}
use ptpd_lwip.Bmc.Update.{m1}

-- doInit, with what it returns.
unfoldable pub do_init : Port → System → Bool × System
do_init p s =
    let (opened, s1) = net_init p (net_shutdown p s) in
    let started = init_clock (log lwip_ptp_init_timers (on_clock init_data s1)) in
    if opened
    then (true, on_obuf (λ b. msg_pack_header (m1 started.clock) b) (on_clock m1 started))
    else (false, s1)

-- The case of INITIALIZING.
pub initialize : Port → System → System
initialize p s =
    let (done, r) = do_init p s in if done then to_state p listening r else to_state p faulty r

-- The table of foreign masters is emptied.
abbrev pub forget_masters : PtpClock → PtpClock
forget_masters c = record c {
  foreign_master_ds = record (c.foreign_master_ds) { count = 0; i = 0 };
}

-- No Announce message came in time.
announce_timeout : Port → System → System
announce_timeout p before =
    let s = on_clock forget_masters before in
    if not (is_slave_only s.clock)
    then to_state p master (recommend_state master (on_clock m1 s))
    else if not (same_state s.clock.port_ds.port_state listening)
    then to_state p listening s
    else s

-- The cases of LISTENING, UNCALIBRATED, SLAVE and PASSIVE.
listen : Port → System → System
listen p s =
    let checked = log (lwip_ptp_check_timer announce_receipt_timer) s in
    if p.expired s.calls announce_receipt_timer
    then announce_timeout p checked
    else handle p checked

-- `if (LWIP_PTP_CHECK_TIMER(t)) { ... }`
on_timer : Port → Timer → (System → System) → System → System
on_timer p t act s =
    let checked = log (lwip_ptp_check_timer t) s in
    if p.expired s.calls t then act checked else checked

-- The case of MASTER.
pub serve : Port → System → System
serve p s = issue_delay_req_timer_expired p (
    handle p (
      on_timer p announce_interval_timer (issue_announce p)
        (on_timer p sync_interval_timer (issue_sync p) s)))

-- The last `switch`, by the state of the port.
pub act_in : Port → PortState → System → System
act_in p initializing s = initialize p s
act_in p faulty s = to_state p initializing s
act_in p disabled s = handle p s
act_in p listening s = listen p s
act_in p uncalibrated s = listen p s
act_in p slave s = listen p s
act_in p passive s = listen p s
act_in p master s = serve p s
act_in p pre_master s = s

unfoldable pub act : Port → System → System
unfolding act_in initialize announce_timeout listen on_timer serve
act p s = act_in p s.clock.port_ds.port_state s

-- doState
unfoldable pub do_state : Port → System → System
unfolding act
do_state p s = act p (follow p (decide s))

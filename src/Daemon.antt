-- ===== src/Daemon.antt =====
-- The thread of src/lwip-ptp.c: the run-time options, the first state, and the rounds of the stack.
-- A round ends when the thread fetches an alert, which a packet or a timer posts.
pub mod Safe
pub mod Once
mod Examples
use ptpd_lwip.Protocol.Run.{do_state}
use ptpd_lwip.Types.Opt.{initializing}
use ptpd_lwip.Types.Zero.{zero_record}
use ptpd_lwip.Protocol.{to_state}
use ptpd_lwip.Types.Clock.{PtpClock}
use ptpd_lwip.Types.System.{
  Port, System, log, on_clock, sys_arch_mbox_fetch, sys_sem_signal, sys_mbox_trypost,
}
use ptpd_lwip.Prelude.Int.{ltb_ℤ, pos}
use ptpd_lwip.Prelude.{if◌then◌else◌, Bool, ℕ, replicate, List, not, suc, [], ◌∷◌, zero}
use ptpd_lwip.Types.Time.{time}
use ptpd_lwip.Types.DataSet.{RunTimeOpts}
use ptpd_lwip.Types.Opt.Default

-- The assignments in order, with PTP_TEXT_STATS for the statistics and the size of
-- `ptpForeignRecords` for the foreign masters.
default_options : RunTimeOpts
default_options = record {
  announce_interval = Default.announce_interval;
  sync_interval = Default.sync_interval;
  clock_quality = record {
    clock_class = Default.clock_class;
    clock_accuracy = Default.clock_accuracy;
    offset_scaled_log_variance = Default.clock_variance;
  };
  priority1 = Default.priority1;
  priority2 = Default.priority2;
  domain_number = Default.domain_number;
  slave_only = Default.slave_only;
  current_utc_offset = Default.utc_offset;
  stats = 1;
  inbound_latency = time (pos 0) Default.inbound_latency;
  outbound_latency = time (pos 0) Default.outbound_latency;
  max_foreign_records = Default.max_foreign_records;
  delay_mechanism = Default.delay_mechanism;
  servo = record {
    no_reset_clock = Default.no_reset_clock;
    no_adjust = Default.no_adjust;
    ap = Default.ap;
    ai = Default.ai;
    s_delay = Default.delay_s;
    s_offset = Default.offset_s;
  };
}

-- The three `if`s after the assignments.
adjust_options : RunTimeOpts → RunTimeOpts
adjust_options o = record o {
  clock_quality = record (o.clock_quality) {
    clock_class =
        if o.slave_only then Default.clock_class_slave_only else o.clock_quality.clock_class;
  };
  servo = record (o.servo) {
    ap = if ltb_ℤ o.servo.ap (pos 1) then pos 1 else o.servo.ap;
    ai = if ltb_ℤ o.servo.ai (pos 1) then pos 1 else o.servo.ai;
  };
}

unfoldable pub runtime_options : RunTimeOpts
unfolding default_options adjust_options
runtime_options = adjust_options default_options

-- The pointers to the options and to the array of foreign masters are set.
with_options : PtpClock → PtpClock
with_options c = record c {
  rt_opts = runtime_options;
  foreign_master_ds = record (c.foreign_master_ds) {
    records = replicate Default.max_foreign_records zero_record;
  };
}

-- `ptpd_thread` up to the loop. The loop that waits for an address of the interface does not touch
-- the clock.
unfoldable pub start : Port → System → System
unfolding with_options
start p s = to_state p initializing (on_clock with_options s)

-- The loop of `ptpd_thread`, for a number of rounds.
unfoldable pub rounds : Port → ℕ → System → System
rounds p zero s = s
rounds p (suc n) s = log sys_arch_mbox_fetch (do_state p (rounds p n s))

-- ptpd_thread, after a number of rounds.
unfoldable pub ptpd_thread : Port → ℕ → System → System
unfolding start rounds
ptpd_thread p n s = rounds p n (start p s)

-- What `lwipPtpInit` has created when it returns.
pub data Created : Type 0 where
  alert_mailbox tx_semaphore : Created
  thread : ℕ → Created  -- with the priority

-- lwipPtpInit, by whether the mailbox and the semaphore can be created.
unfoldable pub lwip_ptp_init : Bool → Bool → ℕ → List Created
lwip_ptp_init mbox_new sem_new priority =
    if not mbox_new
    then []
    else if not sem_new
    then alert_mailbox ∷ []
    else alert_mailbox ∷ tx_semaphore ∷ thread priority ∷ []

-- lwipPtpTimerExpired, which alerts the thread; a full mailbox has an alert in it.
lwip_ptp_timer_expired : ℕ → System → System
lwip_ptp_timer_expired idx s = log sys_mbox_trypost s

-- lwipPtpTxNotify
lwip_ptp_tx_notify : System → System
lwip_ptp_tx_notify s = log sys_sem_signal s

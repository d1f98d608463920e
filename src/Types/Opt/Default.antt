-- ===== src/Types/Opt/Default.antt =====
-- The DEFAULT_* constants of src/def/opt.h, and those beside them that the user may set.
use ptpd_lwip.Prelude.{ℕ, Bool, true, false}
use ptpd_lwip.Prelude.Int.{ℤ, pos}

-- Delay mechanism (Table 9)
pub data DelayMechanism : Type 0 where
  e2e p2p delay_disabled : DelayMechanism

abbrev pub inbound_latency : ℤ
inbound_latency = pos 0

abbrev pub outbound_latency : ℤ
outbound_latency = pos 0

abbrev pub no_reset_clock : Bool
no_reset_clock = false

abbrev pub domain_number : ℕ
domain_number = 0

abbrev pub delay_mechanism : DelayMechanism
delay_mechanism = e2e

abbrev pub ap : ℤ
ap = pos 2

abbrev pub ai : ℤ
ai = pos 16

abbrev pub delay_s : ℤ
delay_s = pos 6

abbrev pub offset_s : ℤ
offset_s = pos 1

abbrev pub announce_interval : ℤ
announce_interval = pos 1

abbrev pub utc_offset : ℤ
utc_offset = pos 34

abbrev pub utc_valid : Bool
utc_valid = false

abbrev pub pdelayreq_interval : ℤ
pdelayreq_interval = pos 1

abbrev pub delayreq_interval : ℤ
delayreq_interval = pos 3

abbrev pub sync_interval : ℤ
sync_interval = pos 0

abbrev pub announce_receipt_timeout : ℕ
announce_receipt_timeout = 6

abbrev pub clock_class : ℕ
clock_class = 248

abbrev pub clock_class_slave_only : ℕ
clock_class_slave_only = 255

abbrev pub clock_accuracy : ℕ
clock_accuracy = 0xfe

abbrev pub priority1 : ℕ
priority1 = 248

abbrev pub priority2 : ℕ
priority2 = 248

abbrev pub clock_variance : ℤ
clock_variance = pos 5000

abbrev pub max_foreign_records : ℕ
max_foreign_records = 5

abbrev pub parents_stats : Bool
parents_stats = false

abbrev pub two_step_flag : Bool
two_step_flag = true

abbrev pub time_source : ℕ
time_source = 0xa0

abbrev pub time_traceable : Bool
time_traceable = false

abbrev pub frequency_traceable : Bool
frequency_traceable = false

abbrev pub timescale : ℕ
timescale = 0

abbrev pub calibrated_offset_ns : ℕ
calibrated_offset_ns = 10000

abbrev pub uncalibrated_offset_ns : ℕ
uncalibrated_offset_ns = 1000000

abbrev pub max_adj_offset_ns : ℕ
max_adj_offset_ns = 1000000000

abbrev pub slave_only : Bool
slave_only = true

abbrev pub no_adjust : Bool
no_adjust = false

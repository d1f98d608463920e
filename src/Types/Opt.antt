-- ===== src/Types/Opt.antt =====
-- The constants and enumerations of src/def/opt.h, and its macros on flags and powers.
pub mod MessageType
pub mod ControlField
pub mod Length
pub mod Flag
pub mod Event
pub mod Default
use ptpd_lwip.Prelude.Int.{ℤ, ltb_ℤ, pos, pos_part, neg_part}
use ptpd_lwip.Prelude.{ℕ, bit_and, Bool, bit_or, if◌then◌else◌, ◌^◌, ◌==◌, ◌-◌, ◌*◌, ◌/◌}
pub use Default.{DelayMechanism, e2e, p2p, delay_disabled}

-- PTP State (Table 8)
pub data PortState : Type 0 where
  initializing faulty disabled listening pre_master master passive uncalibrated slave : PortState

abbrev pub state_number : PortState → ℕ
state_number initializing = 0
state_number faulty = 1
state_number disabled = 2
state_number listening = 3
state_number pre_master = 4
state_number master = 5
state_number passive = 6
state_number uncalibrated = 7
state_number slave = 8

-- `a == b` on two states.
abbrev pub same_state : PortState → PortState → Bool
same_state a b = state_number a == state_number b

-- The timers, numbered from 0 in this order.
pub data Timer : Type 0 where
  pdelayreq_interval_timer delayreq_interval_timer sync_interval_timer : Timer
  announce_receipt_timer announce_interval_timer qualification_timeout : Timer

-- The macros `getFlag`, `setFlag` and `clearFlag`, on 32 bits.
abbrev pub get_flag : ℕ → ℕ → Bool
get_flag field mask = bit_and field mask == mask

abbrev pub set_flag : ℕ → ℕ → ℕ
set_flag field mask = bit_or field mask

abbrev pub clear_flag : ℕ → ℕ → ℕ
clear_flag field mask = bit_and field (2 ^ 32 - 1 - mask)

-- The macro `pow2ms`: 2^a seconds in milliseconds. The code shifts an int, which is defined while the
-- result fits it and the shift is below 32; beyond that the power here goes on.
abbrev pub pow2ms : ℤ → ℕ
pow2ms a = if ltb_ℤ (pos 0) a then 1000 * 2 ^ pos_part a else 1000 / 2 ^ neg_part a

-- ADJ_FREQ_MAX
abbrev pub adj_freq_max : ℕ
adj_freq_max = 32768000

abbrev pub number_ports : ℕ
number_ports = 1

abbrev pub version_ptp : ℕ
version_ptp = 2

-- PTP_TIMESCALE, the second of the time scales.
abbrev pub ptp_timescale : ℕ
ptp_timescale = 1

abbrev pub ptp_event_port : ℕ
ptp_event_port = 319

abbrev pub ptp_general_port : ℕ
ptp_general_port = 320

-- The two multicast addresses, before `htonl` puts them in network order.
abbrev pub default_ptp_domain_address : ℕ
default_ptp_domain_address = 0xe0000181

abbrev pub peer_ptp_domain_address : ℕ
peer_ptp_domain_address = 0xe000006b

-- PBUF_QUEUE_SIZE
abbrev pub pbuf_queue_size : ℕ
pbuf_queue_size = 4

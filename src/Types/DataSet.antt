-- ===== src/Types/DataSet.antt =====
-- The data sets of the standard's section 8.2 and the servo's records: structures of
-- src/def/datatypes_private.h.
use ptpd_lwip.Types.Opt.Default.{DelayMechanism}
use ptpd_lwip.Types.Opt.{PortState}
use ptpd_lwip.Types.Time.{TimeInternal}
use ptpd_lwip.Types.Message.{PortIdentity, ClockQuality, ClockIdentity, MsgAnnounce, MsgHeader}
use ptpd_lwip.Prelude.Int.{ℤ}
use ptpd_lwip.Prelude.{ℕ, List, Bool}

-- foreignMasterRecord_t
pub record ForeignMasterRecord : Type 0 where
  pub foreign_master_port_identity : PortIdentity
  pub foreign_master_announce_messages : ℤ  -- s16_t
  pub announce : MsgAnnounce
  pub header : MsgHeader

-- defaultDS_t
pub record DefaultDs : Type 0 where
  pub two_step_flag : Bool
  pub clock_identity : ClockIdentity
  pub number_ports : ℤ  -- s16_t
  pub clock_quality : ClockQuality
  pub priority1 : ℕ  -- u8_t
  pub priority2 : ℕ  -- u8_t
  pub domain_number : ℕ  -- u8_t
  pub slave_only : Bool

-- currentDS_t
pub record CurrentDs : Type 0 where
  pub steps_removed : ℤ  -- s16_t
  pub offset_from_master : TimeInternal
  pub mean_path_delay : TimeInternal

-- parentDS_t
pub record ParentDs : Type 0 where
  pub parent_port_identity : PortIdentity
  pub parent_stats : Bool
  pub observed_parent_offset_scaled_log_variance : ℤ  -- s16_t
  pub observed_parent_clock_phase_change_rate : ℤ  -- s32_t
  pub grandmaster_identity : ClockIdentity
  pub grandmaster_clock_quality : ClockQuality
  pub grandmaster_priority1 : ℕ  -- u8_t
  pub grandmaster_priority2 : ℕ  -- u8_t

-- timePropertiesDS_t
pub record TimePropertiesDs : Type 0 where
  pub current_utc_offset : ℤ  -- s16_t
  pub current_utc_offset_valid : Bool
  pub leap59 : Bool
  pub leap61 : Bool
  pub time_traceable : Bool
  pub frequency_traceable : Bool
  pub ptp_timescale : Bool
  pub time_source : ℕ  -- u8_t

-- portDS_t
pub record PortDs : Type 0 where
  pub port_identity : PortIdentity
  pub port_state : PortState
  pub log_min_delay_req_interval : ℤ  -- s8_t
  pub peer_mean_path_delay : TimeInternal
  pub log_announce_interval : ℤ  -- s8_t
  pub announce_receipt_timeout : ℕ  -- u8_t
  pub log_sync_interval : ℤ  -- s8_t
  pub delay_mechanism : DelayMechanism
  pub log_min_pdelay_req_interval : ℤ  -- s8_t
  pub version_number : ℕ  -- nibble_t

-- foreignMasterDS_t. `records` is the array that the pointer leads to, and the four counters are
-- s16_t that never turn negative.
pub record ForeignMasterDs : Type 0 where
  pub records : List ForeignMasterRecord
  pub count : ℕ
  pub capacity : ℕ
  pub i : ℕ
  pub best : ℕ

-- servo_t
pub record Servo : Type 0 where
  pub no_reset_clock : Bool
  pub no_adjust : Bool
  pub ap : ℤ  -- s16_t
  pub ai : ℤ  -- s16_t
  pub s_delay : ℤ  -- s16_t
  pub s_offset : ℤ  -- s16_t

-- filter_t
pub record Filter : Type 0 where
  pub y_prev : ℤ  -- s32_t
  pub y_sum : ℤ  -- s32_t
  pub s : ℤ  -- s16_t
  pub s_prev : ℤ  -- s16_t
  pub n : ℤ  -- s32_t

-- runTimeOpts_t, but for `ifaceName` and `unicastAddress`, which nothing reads.
pub record RunTimeOpts : Type 0 where
  pub announce_interval : ℤ  -- s8_t
  pub sync_interval : ℤ  -- s8_t
  pub clock_quality : ClockQuality
  pub priority1 : ℕ  -- u8_t
  pub priority2 : ℕ  -- u8_t
  pub domain_number : ℕ  -- u8_t
  pub slave_only : Bool
  pub current_utc_offset : ℤ  -- s16_t
  pub stats : ℕ  -- u8_t
  pub inbound_latency : TimeInternal
  pub outbound_latency : TimeInternal
  pub max_foreign_records : ℕ  -- s16_t
  pub delay_mechanism : DelayMechanism
  pub servo : Servo

-- ===== src/Types/Message.antt =====
-- The messages: structures of src/def/datatypes_private.h. An octet is a number below 256.
use ptpd_lwip.Prelude.Int.{ℤ}
use ptpd_lwip.Types.Time.{Timestamp}
use ptpd_lwip.Prelude.{ℕ, List, ◌∷◌, []}

-- clockIdentity_t, an array of CLOCK_IDENTITY_LENGTH octets.
pub record ClockIdentity : Type 0 where
  pub o0 : ℕ
  pub o1 : ℕ
  pub o2 : ℕ
  pub o3 : ℕ
  pub o4 : ℕ
  pub o5 : ℕ
  pub o6 : ℕ
  pub o7 : ℕ

abbrev pub octets : ClockIdentity → List ℕ
octets i = i.o0 ∷ i.o1 ∷ i.o2 ∷ i.o3 ∷ i.o4 ∷ i.o5 ∷ i.o6 ∷ i.o7 ∷ []

pub record PortIdentity : Type 0 where
  pub clock_identity : ClockIdentity
  pub port_number : ℤ  -- s16_t

pub record ClockQuality : Type 0 where
  pub clock_class : ℕ  -- u8_t
  pub clock_accuracy : ℕ  -- u8_t
  pub offset_scaled_log_variance : ℤ  -- s16_t

-- msgHeader_t (Table 18)
pub record MsgHeader : Type 0 where
  pub transport_specific : ℕ  -- nibble_t
  pub message_type : ℕ  -- nibble_t
  pub version_ptp : ℕ  -- nibble_t
  pub message_length : ℤ  -- s16_t
  pub domain_number : ℕ  -- u8_t
  pub flag_field0 : ℕ
  pub flag_field1 : ℕ
  pub correction_field : ℤ  -- s64_t
  pub source_port_identity : PortIdentity
  pub sequence_id : ℤ  -- s16_t
  pub control_field : ℕ  -- u8_t
  pub log_message_interval : ℤ  -- s8_t

-- msgAnnounce_t (Table 25)
pub record MsgAnnounce : Type 0 where
  pub origin_timestamp : Timestamp
  pub current_utc_offset : ℤ  -- s16_t
  pub grandmaster_priority1 : ℕ  -- u8_t
  pub grandmaster_clock_quality : ClockQuality
  pub grandmaster_priority2 : ℕ  -- u8_t
  pub grandmaster_identity : ClockIdentity
  pub steps_removed : ℤ  -- s16_t
  pub time_source : ℕ  -- u8_t

-- msgSync_t, msgDelayReq_t and msgPDelayReq_t (Tables 26 and 29)
pub record MsgOrigin : Type 0 where
  pub origin_timestamp : Timestamp

-- msgFollowUp_t (Table 27)
pub record MsgFollowUp : Type 0 where
  pub precise_origin_timestamp : Timestamp

-- msgDelayResp_t (Table 30)
pub record MsgDelayResp : Type 0 where
  pub receive_timestamp : Timestamp
  pub requesting_port_identity : PortIdentity

-- msgPDelayResp_t (Table 30)
pub record MsgPDelayResp : Type 0 where
  pub request_receipt_timestamp : Timestamp
  pub requesting_port_identity : PortIdentity

-- msgPDelayRespFollowUp_t (Table 31)
pub record MsgPDelayRespFollowUp : Type 0 where
  pub response_origin_timestamp : Timestamp
  pub requesting_port_identity : PortIdentity

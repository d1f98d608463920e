-- ===== src/Types/Clock.antt =====
-- ptpClock_t, the main data structure, of src/def/datatypes_private.h.
use ptpd_lwip.Types.Opt.{PortState}
use ptpd_lwip.Types.Time.{TimeInternal}
use ptpd_lwip.Prelude.Int.{ℤ}
use ptpd_lwip.Types.DataSet.{
  DefaultDs, CurrentDs, ParentDs, TimePropertiesDs, PortDs, ForeignMasterDs, Filter, Servo,
  RunTimeOpts,
}
use ptpd_lwip.Types.Message.{
  MsgOrigin, MsgFollowUp, MsgDelayResp, MsgPDelayResp, MsgPDelayRespFollowUp, MsgAnnounce,
  MsgHeader,
}
use ptpd_lwip.Prelude.{ℕ, Bool}

-- A buffer of PACKET_SIZE octets, as a function of the offset. The code reads and writes it at
-- offsets below 64 only.
abbrev pub Buffer : Type 0
Buffer = ℕ → ℕ

-- portUuidField, an array of PTP_UUID_LENGTH = 6 octets.
pub record Uuid : Type 0 where
  pub u0 : ℕ
  pub u1 : ℕ
  pub u2 : ℕ
  pub u3 : ℕ
  pub u4 : ℕ
  pub u5 : ℕ

-- The union `msgTmp`, less the members that nothing uses. They are kept apart here: the code reads
-- none that it has not just written.
pub record MsgTmp : Type 0 where
  pub sync : MsgOrigin
  pub follow : MsgFollowUp
  pub resp : MsgDelayResp
  pub presp : MsgPDelayResp
  pub prespfollow : MsgPDelayRespFollowUp
  pub announce : MsgAnnounce

-- `rtOpts` is the structure that the pointer leads to. The network path is not part of it.
pub record PtpClock : Type 0 where
  pub default_ds : DefaultDs
  pub current_ds : CurrentDs
  pub parent_ds : ParentDs
  pub time_properties_ds : TimePropertiesDs
  pub port_ds : PortDs
  pub foreign_master_ds : ForeignMasterDs
  pub msg_tmp_header : MsgHeader
  pub msg_tmp : MsgTmp
  pub msg_obuf : Buffer
  pub msg_ibuf : Buffer
  pub msg_ibuf_length : ℤ  -- ssize_t
  pub tms : TimeInternal
  pub tsm : TimeInternal
  pub pdelay_t1 : TimeInternal
  pub pdelay_t2 : TimeInternal
  pub pdelay_t3 : TimeInternal
  pub pdelay_t4 : TimeInternal
  pub timestamp_sync_receive : TimeInternal
  pub timestamp_delay_req_send : TimeInternal
  pub timestamp_delay_req_receive : TimeInternal
  pub correction_field_sync : TimeInternal
  pub correction_field_pdelay_resp : TimeInternal
  pub sent_pdelay_req_sequence_id : ℤ  -- s16_t
  pub sent_delay_req_sequence_id : ℤ  -- s16_t
  pub sent_sync_sequence_id : ℤ  -- s16_t
  pub sent_announce_sequence_id : ℤ  -- s16_t
  pub recv_sync_sequence_id : ℤ  -- s16_t
  pub waiting_for_follow_up : Bool
  pub waiting_for_pdelay_resp_follow_up : Bool
  pub ofm_filt : Filter
  pub owd_filt : Filter
  pub slv_filt : Filter
  pub offset_history0 : ℤ  -- s16_t
  pub offset_history1 : ℤ  -- s16_t
  pub observed_drift : ℤ  -- s32_t
  pub message_activity : Bool
  pub recommended_state : PortState
  pub port_uuid_field : Uuid
  pub inbound_latency : TimeInternal
  pub outbound_latency : TimeInternal
  pub servo : Servo
  pub events : ℕ  -- s32_t, used for flags below bit 12
  pub stats : ℕ  -- u8_t
  pub rt_opts : RunTimeOpts

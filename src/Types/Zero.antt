-- ===== src/Types/Zero.antt =====
-- What the structures of static storage duration hold before anything is stored: zeros.
use ptpd_lwip.Types.Opt.Default.{delay_disabled}
use ptpd_lwip.Types.Opt.{initializing}
use ptpd_lwip.Prelude.Int.{pos}
use ptpd_lwip.Prelude.{false, replicate}
use ptpd_lwip.Types.Time.{timestamp, zero_time}
use ptpd_lwip.Types.Message.{
  MsgHeader, MsgOrigin, PortIdentity, ClockQuality, MsgAnnounce, ClockIdentity,
}
use ptpd_lwip.Types.DataSet.{ForeignMasterRecord, Servo, RunTimeOpts, Filter}
use ptpd_lwip.Types.Clock.{PtpClock, MsgTmp, Uuid}

abbrev pub zero_identity : ClockIdentity
zero_identity = record { o0 = 0; o1 = 0; o2 = 0; o3 = 0; o4 = 0; o5 = 0; o6 = 0; o7 = 0 }

abbrev pub zero_port : PortIdentity
zero_port = record { clock_identity = zero_identity; port_number = pos 0 }

abbrev pub zero_announce : MsgAnnounce
zero_announce = record {
  origin_timestamp = timestamp 0 0 0;
  current_utc_offset = pos 0;
  grandmaster_priority1 = 0;
  grandmaster_clock_quality = record {
    clock_class = 0;
    clock_accuracy = 0;
    offset_scaled_log_variance = pos 0;
  };
  grandmaster_priority2 = 0;
  grandmaster_identity = zero_identity;
  steps_removed = pos 0;
  time_source = 0;
}

abbrev pub zero_header : MsgHeader
zero_header = record {
  transport_specific = 0;
  message_type = 0;
  version_ptp = 0;
  message_length = pos 0;
  domain_number = 0;
  flag_field0 = 0;
  flag_field1 = 0;
  correction_field = pos 0;
  source_port_identity = zero_port;
  sequence_id = pos 0;
  control_field = 0;
  log_message_interval = pos 0;
}

abbrev pub zero_record : ForeignMasterRecord
zero_record = record {
  foreign_master_port_identity = zero_port;
  foreign_master_announce_messages = pos 0;
  announce = zero_announce;
  header = zero_header;
}

abbrev pub zero_filter : Filter
zero_filter = record { y_prev = pos 0; y_sum = pos 0; s = pos 0; s_prev = pos 0; n = pos 0 }

abbrev pub zero_servo : Servo
zero_servo = record {
  no_reset_clock = false;
  no_adjust = false;
  ap = pos 0;
  ai = pos 0;
  s_delay = pos 0;
  s_offset = pos 0;
}

abbrev pub zero_quality : ClockQuality
zero_quality = record { clock_class = 0; clock_accuracy = 0; offset_scaled_log_variance = pos 0 }

abbrev pub zero_origin : MsgOrigin
zero_origin = record { origin_timestamp = timestamp 0 0 0 }

abbrev pub zero_msg : MsgTmp
zero_msg = record {
  sync = zero_origin;
  follow = record { precise_origin_timestamp = timestamp 0 0 0 };
  resp = record { receive_timestamp = timestamp 0 0 0; requesting_port_identity = zero_port };
  presp = record {
    request_receipt_timestamp = timestamp 0 0 0;
    requesting_port_identity = zero_port;
  };
  prespfollow = record {
    response_origin_timestamp = timestamp 0 0 0;
    requesting_port_identity = zero_port;
  };
  announce = zero_announce;
}

-- The clock before anything is stored, over the given options and with room for five foreign
-- masters. The delay mechanism 0 is none of the enumerated ones, and is read like the disabled one.
abbrev pub zero_clock : RunTimeOpts → Uuid → PtpClock
zero_clock opts uuid = record {
  default_ds = record {
    two_step_flag = false;
    clock_identity = zero_identity;
    number_ports = pos 0;
    clock_quality = zero_quality;
    priority1 = 0;
    priority2 = 0;
    domain_number = 0;
    slave_only = false;
  };
  current_ds = record {
    steps_removed = pos 0;
    offset_from_master = zero_time;
    mean_path_delay = zero_time;
  };
  parent_ds = record {
    parent_port_identity = zero_port;
    parent_stats = false;
    observed_parent_offset_scaled_log_variance = pos 0;
    observed_parent_clock_phase_change_rate = pos 0;
    grandmaster_identity = zero_identity;
    grandmaster_clock_quality = zero_quality;
    grandmaster_priority1 = 0;
    grandmaster_priority2 = 0;
  };
  time_properties_ds = record {
    current_utc_offset = pos 0;
    current_utc_offset_valid = false;
    leap59 = false;
    leap61 = false;
    time_traceable = false;
    frequency_traceable = false;
    ptp_timescale = false;
    time_source = 0;
  };
  port_ds = record {
    port_identity = zero_port;
    port_state = initializing;
    log_min_delay_req_interval = pos 0;
    peer_mean_path_delay = zero_time;
    log_announce_interval = pos 0;
    announce_receipt_timeout = 0;
    log_sync_interval = pos 0;
    delay_mechanism = delay_disabled;
    log_min_pdelay_req_interval = pos 0;
    version_number = 0;
  };
  foreign_master_ds = record {
    records = replicate 5 zero_record;
    count = 0;
    capacity = 0;
    i = 0;
    best = 0;
  };
  msg_tmp_header = zero_header;
  msg_tmp = zero_msg;
  msg_obuf = λ _. 0;
  msg_ibuf = λ _. 0;
  msg_ibuf_length = pos 0;
  tms = zero_time;
  tsm = zero_time;
  pdelay_t1 = zero_time;
  pdelay_t2 = zero_time;
  pdelay_t3 = zero_time;
  pdelay_t4 = zero_time;
  timestamp_sync_receive = zero_time;
  timestamp_delay_req_send = zero_time;
  timestamp_delay_req_receive = zero_time;
  correction_field_sync = zero_time;
  correction_field_pdelay_resp = zero_time;
  sent_pdelay_req_sequence_id = pos 0;
  sent_delay_req_sequence_id = pos 0;
  sent_sync_sequence_id = pos 0;
  sent_announce_sequence_id = pos 0;
  recv_sync_sequence_id = pos 0;
  waiting_for_follow_up = false;
  waiting_for_pdelay_resp_follow_up = false;
  ofm_filt = zero_filter;
  owd_filt = zero_filter;
  slv_filt = zero_filter;
  offset_history0 = pos 0;
  offset_history1 = pos 0;
  observed_drift = pos 0;
  message_activity = false;
  recommended_state = initializing;
  port_uuid_field = uuid;
  inbound_latency = zero_time;
  outbound_latency = zero_time;
  servo = zero_servo;
  events = 0;
  stats = 0;
  rt_opts = opts;
}

-- ===== src/Bmc/Init.antt =====
-- `EUI48toEUI64` and `initData` of src/bmc.c.
use ptpd_lwip.Types.Opt.{number_ports, version_ptp}
use ptpd_lwip.Types.Time.{zero_time}
use ptpd_lwip.Prelude.Int.{pos}
use ptpd_lwip.Types.Message.{ClockIdentity}
use ptpd_lwip.Types.DataSet.{PortDs, DefaultDs}
use ptpd_lwip.Types.Clock.{PtpClock, Uuid}
use ptpd_lwip.Types.Opt.Default

unfoldable pub eui48_to_eui64 : Uuid → ClockIdentity
eui48_to_eui64 u = record {
  o0 = u.u0;
  o1 = u.u1;
  o2 = u.u2;
  o3 = 0xff;
  o4 = 0xfe;
  o5 = u.u3;
  o6 = u.u4;
  o7 = u.u5;
}

-- The assignments to `defaultDS`. Of the three ways to make the clock identity the first is taken,
-- since CLOCK_IDENTITY_LENGTH is 8 and PTP_UUID_LENGTH is 6.
init_default_ds : PtpClock → DefaultDs
init_default_ds c = record {
  two_step_flag = Default.two_step_flag;
  clock_identity = eui48_to_eui64 c.port_uuid_field;
  number_ports = pos number_ports;
  clock_quality = c.rt_opts.clock_quality;
  priority1 = c.rt_opts.priority1;
  priority2 = c.rt_opts.priority2;
  domain_number = c.rt_opts.domain_number;
  slave_only = c.rt_opts.slave_only;
}

-- The assignments to `portDS`, which leave its state alone.
init_port_ds : PtpClock → PortDs
init_port_ds c = record (c.port_ds) {
  port_identity = record {
    clock_identity = eui48_to_eui64 c.port_uuid_field;
    port_number = pos number_ports;
  };
  log_min_delay_req_interval = Default.delayreq_interval;
  peer_mean_path_delay = zero_time;
  log_announce_interval = c.rt_opts.announce_interval;
  announce_receipt_timeout = Default.announce_receipt_timeout;
  log_sync_interval = c.rt_opts.sync_interval;
  delay_mechanism = c.rt_opts.delay_mechanism;
  log_min_pdelay_req_interval = Default.pdelayreq_interval;
  version_number = version_ptp;
}

unfoldable pub init_data : PtpClock → PtpClock
unfolding init_default_ds init_port_ds eui48_to_eui64
init_data c = record c {
  default_ds = init_default_ds c;
  port_ds = init_port_ds c;
  foreign_master_ds = record (c.foreign_master_ds) {
    count = 0;
    capacity = c.rt_opts.max_foreign_records;
  };
  inbound_latency = c.rt_opts.inbound_latency;
  outbound_latency = c.rt_opts.outbound_latency;
  servo = c.rt_opts.servo;
  stats = c.rt_opts.stats;
}

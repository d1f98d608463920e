-- ===== src/Types/Sample.antt =====
-- A clock in service, on which the examples run the functions.
use ptpd_lwip.Types.Network.{NetPath}
use ptpd_lwip.Types.System.{System, Port}
use ptpd_lwip.Types.Time.{zero_time, time, timestamp}
use ptpd_lwip.Types.Opt.Default.{e2e}
use ptpd_lwip.Types.Opt.{slave}
use ptpd_lwip.Prelude.Int.{pos, negsuc}
use ptpd_lwip.Types.Message.{PortIdentity, ClockIdentity, MsgHeader, MsgAnnounce}
use ptpd_lwip.Types.Zero.{zero_clock, zero_header, zero_announce, zero_record, zero_filter}
use ptpd_lwip.Prelude.{ℕ, ◌∷◌, true, false, [], none, some}
use ptpd_lwip.Types.DataSet.{RunTimeOpts, ForeignMasterDs, ForeignMasterRecord}
use ptpd_lwip.Types.Clock.{PtpClock, Uuid}

abbrev pub sample_options : RunTimeOpts
sample_options = record {
  announce_interval = pos 1;
  sync_interval = pos 0;
  clock_quality = record {
    clock_class = 248;
    clock_accuracy = 0xfe;
    offset_scaled_log_variance = pos 5000;
  };
  priority1 = 248;
  priority2 = 248;
  domain_number = 0;
  slave_only = false;
  current_utc_offset = pos 34;
  stats = 1;
  inbound_latency = zero_time;
  outbound_latency = zero_time;
  max_foreign_records = 5;
  delay_mechanism = e2e;
  servo = record {
    no_reset_clock = false;
    no_adjust = false;
    ap = pos 2;
    ai = pos 16;
    s_delay = pos 6;
    s_offset = pos 1;
  };
}

abbrev pub sample_identity : ClockIdentity
sample_identity = record { o0 = 0; o1 = 1; o2 = 2; o3 = 0xff; o4 = 0xfe; o5 = 3; o6 = 4; o7 = 5 }

abbrev pub sample_port : PortIdentity
sample_port = record { clock_identity = sample_identity; port_number = pos 1 }

abbrev pub sample_header : MsgHeader
sample_header = record zero_header {
  correction_field = negsuc 65535;
  source_port_identity = record (sample_port) { port_number = negsuc 4 };
  sequence_id = pos 300;
}

abbrev pub sample_uuid : Uuid
sample_uuid = record { u0 = 0; u1 = 1; u2 = 2; u3 = 3; u4 = 4; u5 = 5 }

-- An Announce message of a grandmaster with the given first priority and last octet.
abbrev pub sample_announce : ℕ → ℕ → MsgAnnounce
sample_announce priority last = record zero_announce {
  grandmaster_priority1 = priority;
  grandmaster_identity = record sample_identity { o7 = last };
}

abbrev pub sample_record : ℕ → ℕ → ForeignMasterRecord
sample_record priority last = record zero_record {
  foreign_master_port_identity = record sample_port {
    clock_identity = record sample_identity { o7 = last };
  };
  announce = sample_announce priority last;
}

-- Three foreign masters are known; the second has the lowest first priority.
abbrev pub sample_table : ForeignMasterDs
sample_table = record {
  records =
      sample_record 20 11
      ∷ sample_record 10 12
      ∷ sample_record 30 13
      ∷ zero_record
      ∷ zero_record
      ∷ [];
  count = 3;
  capacity = 5;
  i = 3;
  best = 0;
}

abbrev pub sample_clock : PtpClock
sample_clock =
    let c = zero_clock sample_options sample_uuid in
    record c {
      default_ds = record (c.default_ds) {
        two_step_flag = true;
        clock_identity = sample_identity;
        clock_quality = sample_options.clock_quality;
        priority1 = 248;
        priority2 = 248;
      };
      port_ds = record (c.port_ds) {
        port_identity = sample_port;
        port_state = slave;
        delay_mechanism = e2e;
        version_number = 2;
      };
      foreign_master_ds = sample_table;
      sent_announce_sequence_id = pos 7;
      sent_sync_sequence_id = negsuc 0;
      servo = sample_options.servo;
    }

-- Both sockets are open.
abbrev pub sample_path : NetPath
sample_path = record {
  multicast_addr = 0xe0000181;
  peer_multicast_addr = 0xe000006b;
  event_handler = record { pcb = some 3; inbox = true; outbox = true };
  general_handler = record { pcb = some 4; inbox = true; outbox = true };
}

-- A port at 1000 s and 500 ns whose timers never expire.
abbrev pub sample_surroundings : Port
sample_surroundings = record {
  time_now = λ _. timestamp 0 1000 500;
  expired = λ _ _. false;
  random = λ _. 7;
  sending = λ _. record {
    allocated = true;
    taken = true;
    posted = true;
    called_back = true;
    tv_sec = 1001;
    tv_nsec = 40;
  };
  arrived = λ _ _. none;
  overrun = λ _ _. 0;
  new_pcb = λ _. some 9;
  mailbox_valid = λ _. true;
  uninitialised = λ _. timestamp 0 0 0;
  uninitialised_time = λ _. zero_time;
}

abbrev pub sample_system : System
sample_system = record { clock = sample_clock; net_path = sample_path; calls = [] }

-- The clock is two and a half seconds ahead of its master.
abbrev pub ahead_clock : PtpClock
ahead_clock = record sample_clock {
  current_ds = record (sample_clock.current_ds) {
    offset_from_master = time (pos 2) (pos 500000000);
  };
  ofm_filt = record zero_filter { n = pos 1; s = pos 1 };
}

abbrev pub ahead_system : System
ahead_system = record { clock = ahead_clock; net_path = sample_path; calls = [] }

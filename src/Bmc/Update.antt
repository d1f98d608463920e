-- ===== src/Bmc/Update.antt =====
-- `m1` (and `m2`, its other name), `p1`, `s1` and `copyD0` of src/bmc.c.
use ptpd_lwip.Types.Opt.{set_flag, get_flag, ptp_timescale}
use ptpd_lwip.Prelude.{false, ◌==◌, if◌then◌else◌}
use ptpd_lwip.Prelude.Word.{s16}
use ptpd_lwip.Bmc.Foreign.{is_same_port_identity}
use ptpd_lwip.Types.Time.{zero_time}
use ptpd_lwip.Types.Message.{MsgHeader, MsgAnnounce}
use ptpd_lwip.Prelude.Int.{pos, ◌+ℤ◌}
use ptpd_lwip.Types.Clock.{PtpClock}
use ptpd_lwip.Types.Opt.Default
use ptpd_lwip.Types.Opt.Flag
use ptpd_lwip.Types.Opt.Event

-- The local clock becomes master (Table 13).
unfoldable pub m1 : PtpClock → PtpClock
m1 c = record c {
  current_ds = record {
    steps_removed = pos 0;
    offset_from_master = zero_time;
    mean_path_delay = zero_time;
  };
  parent_ds = record (c.parent_ds) {
    parent_port_identity = record {
      clock_identity = c.default_ds.clock_identity;
      port_number = pos 0;
    };
    grandmaster_identity = c.default_ds.clock_identity;
    grandmaster_clock_quality = c.default_ds.clock_quality;
    grandmaster_priority1 = c.default_ds.priority1;
    grandmaster_priority2 = c.default_ds.priority2;
  };
  time_properties_ds = record {
    current_utc_offset = c.rt_opts.current_utc_offset;
    current_utc_offset_valid = Default.utc_valid;
    leap59 = false;
    leap61 = false;
    time_traceable = Default.time_traceable;
    frequency_traceable = Default.frequency_traceable;
    ptp_timescale = Default.timescale == ptp_timescale;
    time_source = Default.time_source;
  };
}

unfoldable pub p1 : PtpClock → PtpClock
p1 c = c

-- The local clock follows the sender of an Announce message (Table 16).
unfoldable pub s1 : PtpClock → MsgHeader → MsgAnnounce → PtpClock
s1 c header announce =
    let from_parent =
      is_same_port_identity c.parent_ds.parent_port_identity header.source_port_identity in
    record c {
      current_ds = record (c.current_ds) { steps_removed = s16 (announce.steps_removed +ℤ pos 1) };
      events = if from_parent then c.events else set_flag c.events Event.master_clock_changed;
      parent_ds = record (c.parent_ds) {
        parent_port_identity = header.source_port_identity;
        grandmaster_identity = announce.grandmaster_identity;
        grandmaster_clock_quality = announce.grandmaster_clock_quality;
        grandmaster_priority1 = announce.grandmaster_priority1;
        grandmaster_priority2 = announce.grandmaster_priority2;
      };
      time_properties_ds = record {
        current_utc_offset = announce.current_utc_offset;
        current_utc_offset_valid = get_flag header.flag_field1 Flag.utc_offset_valid;
        leap59 = get_flag header.flag_field1 Flag.leap59;
        leap61 = get_flag header.flag_field1 Flag.leap61;
        time_traceable = get_flag header.flag_field1 Flag.time_traceable;
        frequency_traceable = get_flag header.flag_field1 Flag.frequency_traceable;
        ptp_timescale = get_flag header.flag_field1 Flag.ptp_timescale;
        time_source = announce.time_source;
      };
    }

-- The local data set D0 as a header and an Announce message; other fields keep what they held.
unfoldable pub copy_d0_header : PtpClock → MsgHeader → MsgHeader
copy_d0_header c header = record header {
  source_port_identity = record (header.source_port_identity) {
    clock_identity = c.default_ds.clock_identity;
  };
}

unfoldable pub copy_d0_announce : PtpClock → MsgAnnounce → MsgAnnounce
copy_d0_announce c announce = record announce {
  grandmaster_priority1 = c.default_ds.priority1;
  grandmaster_identity = c.default_ds.clock_identity;
  grandmaster_clock_quality = c.default_ds.clock_quality;
  grandmaster_priority2 = c.default_ds.priority2;
  steps_removed = pos 0;
}

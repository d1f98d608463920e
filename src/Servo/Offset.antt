-- ===== src/Servo/Offset.antt =====
-- `updateOffset`, `updateDelay` and `updatePeerDelay` of src/servo.c.
pub mod Total
pub mod Frame
use ptpd_lwip.Types.Opt.Default.{e2e, p2p, delay_disabled, DelayMechanism}
use ptpd_lwip.Servo.{filter}
use ptpd_lwip.Arith.{sub_time, div2_time, add_time}
use ptpd_lwip.Prelude.{Bool, if◌then◌else◌, ℕ, ◌+◌, ltb}
use ptpd_lwip.Types.Clock.{PtpClock}
use ptpd_lwip.Types.Opt.{PortState, same_state, set_flag, uncalibrated, slave}
use ptpd_lwip.Types.Time.{TimeInternal, time}
use ptpd_lwip.Types.Opt.Default
use ptpd_lwip.Types.Opt.Event
use ptpd_lwip.Prelude.Int.{pos_part, neg_part, ℤ, eqb_ℤ, pos}

-- abs
abbrev pub abs : ℤ → ℕ
abs z = pos_part z + neg_part z

-- The `switch` of `updateOffset`: the path delay is taken off.
raw_offset : DelayMechanism → PtpClock → TimeInternal → TimeInternal
raw_offset e2e c tms = sub_time tms c.current_ds.mean_path_delay
raw_offset p2p c tms = sub_time tms c.port_ds.peer_mean_path_delay
raw_offset delay_disabled c tms = tms

-- `setFlag` when the port is in the state `st`.
flag_in : PortState → ℕ → PtpClock → PtpClock
flag_in st mask c = record c {
  events = if same_state c.port_ds.port_state st then set_flag c.events mask else c.events;
}

-- The checks on the filtered offset.
check_offset : PtpClock → PtpClock
check_offset c =
    let size = abs c.current_ds.offset_from_master.nanoseconds in
    if ltb size Default.calibrated_offset_ns
    then flag_in uncalibrated Event.master_clock_selected c
    else if ltb Default.uncalibrated_offset_ns size
    then flag_in slave Event.synchronization_fault c
    else c

-- The filter on the nanoseconds of the offset.
filter_offset : PtpClock → PtpClock
filter_offset c =
    let offset = c.current_ds.offset_from_master in
    let (ns, filt) = filter offset.nanoseconds c.ofm_filt in
    record c {
      current_ds = record (c.current_ds) { offset_from_master = time offset.seconds ns };
      ofm_filt = filt;
    }

-- `Tms` and the offset before it is filtered.
store_offset : TimeInternal → PtpClock → PtpClock
store_offset tms c = record c {
  tms = tms;
  current_ds = record (c.current_ds) {
    offset_from_master = raw_offset c.port_ds.delay_mechanism c tms;
  };
}

-- updateOffset
unfoldable pub update_offset : TimeInternal → TimeInternal → TimeInternal → PtpClock → PtpClock
unfolding raw_offset flag_in check_offset filter_offset store_offset
update_offset sync_event_ingress_timestamp precise_origin_timestamp correction_field c =
    let elapsed = sub_time sync_event_ingress_timestamp precise_origin_timestamp in
    let d = store_offset (sub_time elapsed correction_field) c in
    if eqb_ℤ d.current_ds.offset_from_master.seconds (pos 0)
    then check_offset (filter_offset d)
    else flag_in slave Event.synchronization_fault d

-- updateDelay
unfoldable pub update_delay : TimeInternal → TimeInternal → TimeInternal → PtpClock → PtpClock
update_delay delay_event_egress_timestamp recieve_timestamp correction_field c =
    let elapsed = sub_time recieve_timestamp delay_event_egress_timestamp in
    let tsm = sub_time elapsed correction_field in
    let mean = div2_time (add_time c.tms tsm) in
    let (ns, filt) = filter mean.nanoseconds c.owd_filt in
    if eqb_ℤ (pos 0) c.ofm_filt.n
    then c
    else if eqb_ℤ (pos 0) mean.seconds
    then record c {
      tsm = tsm;
      current_ds = record (c.current_ds) { mean_path_delay = time mean.seconds ns };
      owd_filt = filt;
    }
    else record c { tsm = tsm; current_ds = record (c.current_ds) { mean_path_delay = mean } }

-- The four times of a peer delay measurement, before the correction.
turnaround : Bool → PtpClock → TimeInternal
turnaround two_step c =
    if two_step
    then add_time (sub_time c.pdelay_t2 c.pdelay_t1) (sub_time c.pdelay_t4 c.pdelay_t3)
    else sub_time c.pdelay_t4 c.pdelay_t1

-- updatePeerDelay
unfoldable pub update_peer_delay : TimeInternal → Bool → PtpClock → PtpClock
unfolding turnaround
update_peer_delay correction_field two_step c =
    let mean = div2_time (sub_time (turnaround two_step c) correction_field) in
    let (ns, filt) = filter mean.nanoseconds c.owd_filt in
    if eqb_ℤ mean.seconds (pos 0)
    then record c {
      port_ds = record (c.port_ds) { peer_mean_path_delay = time mean.seconds ns };
      owd_filt = filt;
    }
    else record c { port_ds = record (c.port_ds) { peer_mean_path_delay = mean } }

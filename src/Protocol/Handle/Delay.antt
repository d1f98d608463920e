-- ===== src/Protocol/Handle/Delay.antt =====
-- `handleDelayReq` and `handleDelayResp` of src/protocol.c.
pub mod Moves
use ptpd_lwip.Protocol.Issue.{issue_delay_resp}
use ptpd_lwip.Protocol.{to_state, is_follower}
use ptpd_lwip.Servo.Offset.{update_delay}
use ptpd_lwip.Protocol.Handle.{is_short, is_from_parent}
use ptpd_lwip.Prelude.Int.{eqb_ℤ, ◌-ℤ◌, pos}
use ptpd_lwip.Prelude.{if◌then◌else◌, ◌&&◌}
use ptpd_lwip.Bmc.Foreign.{is_same_port_identity}
use ptpd_lwip.Types.Time.{TimeInternal}
use ptpd_lwip.Msg.Unpack.{msg_unpack_delay_resp}
use ptpd_lwip.Arith.{scaled_nanoseconds_to_internal_time, to_internal_time}
use ptpd_lwip.Types.System.{Port, System, on_clock}
use ptpd_lwip.Types.Clock.{PtpClock}
use ptpd_lwip.Types.Opt.Default.{e2e}
use ptpd_lwip.Types.Opt.{faulty, same_state, master}
use ptpd_lwip.Types.Opt.Length

-- `handleDelayReq` end to end.
delay_req_in : Port → TimeInternal → System → System
delay_req_in p t s =
    if is_short Length.delay_req s
    then to_state p faulty s
    else if same_state s.clock.port_ds.port_state master
    then issue_delay_resp p t s.clock.msg_tmp_header s
    else s

-- handleDelayReq
unfoldable pub handle_delay_req : Port → TimeInternal → System → System
unfolding delay_req_in
handle_delay_req p t s = elim s.clock.port_ds.delay_mechanism [ e2e ↦ delay_req_in p t s | _ ↦ s ]

-- The answer to the last request of the port. The difference is taken as an int, without wrapping.
delay_resp_of_parent : PtpClock → PtpClock
delay_resp_of_parent c =
    let correction = scaled_nanoseconds_to_internal_time c.msg_tmp_header.correction_field in
    let received =
      to_internal_time c.timestamp_delay_req_receive c.msg_tmp.resp.receive_timestamp in
    let d =
      update_delay c.timestamp_delay_req_send received correction
        (record c { timestamp_delay_req_receive = received }) in
    record d {
      port_ds = record (d.port_ds) {
        log_min_delay_req_interval = c.msg_tmp_header.log_message_interval;
      };
    }

delay_resp_follower : PtpClock → PtpClock
delay_resp_follower before =
    let c = record before {
      msg_tmp = record (before.msg_tmp) { resp = msg_unpack_delay_resp before.msg_ibuf };
    } in
    let is_current_request =
      is_same_port_identity c.port_ds.port_identity c.msg_tmp.resp.requesting_port_identity in
    let is_last = eqb_ℤ (c.sent_delay_req_sequence_id -ℤ pos 1) c.msg_tmp_header.sequence_id in
    if is_last && is_current_request && is_from_parent c then delay_resp_of_parent c else c

delay_resp_in : Port → System → System
delay_resp_in p s =
    if is_short Length.delay_resp s
    then to_state p faulty s
    else if is_follower s.clock.port_ds.port_state
    then on_clock delay_resp_follower s
    else s

-- handleDelayResp
unfoldable pub handle_delay_resp : Port → System → System
unfolding delay_resp_in delay_resp_follower delay_resp_of_parent
handle_delay_resp p s = elim s.clock.port_ds.delay_mechanism [ e2e ↦ delay_resp_in p s | _ ↦ s ]

-- ===== src/Protocol/Handle/Peer.antt =====
-- `handlePDelayReq`, `handlePDelayResp` and `handlePDelayRespFollowUp` of src/protocol.c.
pub mod Moves
use ptpd_lwip.Protocol.{to_state}
use ptpd_lwip.Protocol.Handle.{is_short}
use ptpd_lwip.Bmc.Foreign.{is_same_port_identity}
use ptpd_lwip.Prelude.Int.{eqb_ℤ, ◌-ℤ◌, pos}
use ptpd_lwip.Servo.Offset.{update_peer_delay}
use ptpd_lwip.Protocol.Issue.{issue_pdelay_resp, issue_pdelay_resp_follow_up}
use ptpd_lwip.Prelude.{Bool, if◌then◌else◌, ◌&&◌, true, ◌||◌, not, false}
use ptpd_lwip.Msg.Unpack.{msg_unpack_pdelay_resp, msg_unpack_pdelay_resp_follow_up}
use ptpd_lwip.Arith.{scaled_nanoseconds_to_internal_time, add_time, to_internal_time}
use ptpd_lwip.Types.Time.{TimeInternal}
use ptpd_lwip.Types.Clock.{PtpClock}
use ptpd_lwip.Types.System.{Port, System, on_clock}
use ptpd_lwip.Types.Opt.Default.{p2p}
use ptpd_lwip.Types.Opt.{faulty, passive, same_state, get_flag, slave, master}
use ptpd_lwip.Types.Opt.Length
use ptpd_lwip.Types.Opt.Flag

abbrev pub is_two_step : PtpClock → Bool
is_two_step c = get_flag c.msg_tmp_header.flag_field0 Flag.two_step

-- The response to a request that came in at `t`, and its follow-up.
answer_pdelay_req : Port → TimeInternal → System → System
answer_pdelay_req p t s =
    let (sent_at, s1) = issue_pdelay_resp p t s.clock.msg_tmp_header s in
    if not (eqb_ℤ sent_at.seconds (pos 0)) && is_two_step s1.clock
    then issue_pdelay_resp_follow_up p sent_at s1.clock.msg_tmp_header s1
    else s1

-- `handlePDelayReq` from peer to peer.
pdelay_req_in : Port → TimeInternal → Bool → System → System
pdelay_req_in p t from_self s =
    let st = s.clock.port_ds.port_state in
    let answers = same_state st passive || same_state st slave || same_state st master in
    if is_short Length.pdelay_req s
    then to_state p faulty s
    else if answers && not from_self
    then answer_pdelay_req p t s
    else s

-- handlePDelayReq
unfoldable pub handle_pdelay_req : Port → TimeInternal → Bool → System → System
unfolding pdelay_req_in answer_pdelay_req
handle_pdelay_req p t from_self s = elim s.clock.port_ds.delay_mechanism [
  | p2p ↦ pdelay_req_in p t from_self s
  | _ ↦ s
]

-- Whether the message answers the last request. As in `handleDelayResp`, the difference is an int.
abbrev pub is_last_pdelay_req : PtpClock → Bool
is_last_pdelay_req c = eqb_ℤ (c.sent_pdelay_req_sequence_id -ℤ pos 1) c.msg_tmp_header.sequence_id

-- The response to the last request, which came in at `t`. `local` is the local variable for t2.
pdelay_resp_of_peer : TimeInternal → TimeInternal → PtpClock → PtpClock
pdelay_resp_of_peer t local c =
    let correction = scaled_nanoseconds_to_internal_time c.msg_tmp_header.correction_field in
    if is_two_step c
    then record c {
      waiting_for_pdelay_resp_follow_up = true;
      pdelay_t4 = t;
      pdelay_t2 = to_internal_time local c.msg_tmp.presp.request_receipt_timestamp;
      correction_field_pdelay_resp = correction;
    }
    else update_peer_delay correction false
        (record c { waiting_for_pdelay_resp_follow_up = false; pdelay_t4 = t })

pdelay_resp_unpacked : TimeInternal → TimeInternal → PtpClock → PtpClock
pdelay_resp_unpacked t local before =
    let c = record before {
      msg_tmp = record (before.msg_tmp) { presp = msg_unpack_pdelay_resp before.msg_ibuf };
    } in
    let is_current_request =
      is_same_port_identity c.port_ds.port_identity c.msg_tmp.presp.requesting_port_identity in
    if is_last_pdelay_req c && is_current_request then pdelay_resp_of_peer t local c else c

-- `handlePDelayResp` from peer to peer.
pdelay_resp_in : Port → TimeInternal → Bool → System → System
pdelay_resp_in p t from_self s =
    let st = s.clock.port_ds.port_state in
    if is_short Length.pdelay_resp s
    then to_state p faulty s
    else if (same_state st master || same_state st slave) && not from_self
    then on_clock (pdelay_resp_unpacked t (p.uninitialised_time s.calls)) s
    else s

-- handlePDelayResp
unfoldable pub handle_pdelay_resp : Port → TimeInternal → Bool → System → System
unfolding pdelay_resp_in pdelay_resp_unpacked pdelay_resp_of_peer
handle_pdelay_resp p t from_self s = elim s.clock.port_ds.delay_mechanism [
  | p2p ↦ pdelay_resp_in p t from_self s
  | _ ↦ s
]

-- The follow-up of that response; `local` is the local variable for t3.
pdelay_follow_up_of_peer : TimeInternal → PtpClock → PtpClock
pdelay_follow_up_of_peer local c =
    let follow = msg_unpack_pdelay_resp_follow_up c.msg_ibuf in
    let correction = scaled_nanoseconds_to_internal_time c.msg_tmp_header.correction_field in
    let d = update_peer_delay (add_time correction c.correction_field_pdelay_resp) true (record c {
      msg_tmp = record (c.msg_tmp) { prespfollow = follow };
      pdelay_t3 = to_internal_time local follow.response_origin_timestamp;
    }) in
    record d { waiting_for_pdelay_resp_follow_up = false }

-- `handlePDelayRespFollowUp` from peer to peer.
pdelay_follow_up_in : Port → System → System
pdelay_follow_up_in p s =
    let c = s.clock in
    let st = c.port_ds.port_state in
    let awaited = c.waiting_for_pdelay_resp_follow_up && is_last_pdelay_req c in
    if is_short Length.pdelay_resp_follow_up s
    then to_state p faulty s
    else if (same_state st slave || same_state st master) && awaited
    then on_clock (pdelay_follow_up_of_peer (p.uninitialised_time s.calls)) s
    else s

-- handlePDelayRespFollowUp
unfoldable pub handle_pdelay_resp_follow_up : Port → System → System
unfolding pdelay_follow_up_in pdelay_follow_up_of_peer
handle_pdelay_resp_follow_up p s = elim s.clock.port_ds.delay_mechanism [
  | p2p ↦ pdelay_follow_up_in p s
  | _ ↦ s
]

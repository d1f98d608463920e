-- ===== src/Protocol/Issue.antt =====
-- The functions of src/protocol.c that pack a message and send it. A local timestamp that
-- `fromInternalTime` leaves alone holds what the port says.
pub mod Timed
pub mod Moves
pub mod Announce
use ptpd_lwip.Protocol.{to_state, start_timer}
use ptpd_lwip.Arith.{from_internal_time, add_time}
use ptpd_lwip.Prelude.Word.{s16}
use ptpd_lwip.Prelude.{if◌then◌else◌, ◌==◌, not, ◌&&◌}
use ptpd_lwip.Msg.Pack.{
  msg_pack_follow_up, msg_pack_announce, msg_pack_pdelay_resp_follow_up, msg_pack_delay_req,
  msg_pack_pdelay_req, msg_pack_sync, msg_pack_pdelay_resp, msg_pack_delay_resp,
}
use ptpd_lwip.SysTime.{get_time, get_rand}
use ptpd_lwip.Types.Message.{MsgHeader}
use ptpd_lwip.Prelude.Int.{ℤ, ◌+ℤ◌, pos, eqb_ℤ}
use ptpd_lwip.Net.{
  Sent, net_send_general, net_send_peer_general, net_send_event, net_send_peer_event,
}
use ptpd_lwip.Types.Opt.{
  Timer, same_state, slave, delayreq_interval_timer, faulty, pow2ms, pdelayreq_interval_timer,
}
use ptpd_lwip.Types.Time.{TimeInternal, Timestamp}
use ptpd_lwip.Types.Clock.{Buffer}
use ptpd_lwip.Types.System.{Port, System, on_clock, log, lwip_ptp_check_timer}
use ptpd_lwip.Types.Opt.Default.{e2e, p2p, delay_disabled, DelayMechanism}
use ptpd_lwip.Types.Opt.Length

-- The local timestamp after `fromInternalTime`.
abbrev pub external_time : Port → TimeInternal → System → Timestamp
external_time p t s = from_internal_time t (p.uninitialised s.calls)

abbrev pub on_obuf : (Buffer → Buffer) → System → System
on_obuf f s = on_clock (λ c. record c { msg_obuf = f c.msg_obuf }) s

-- `if (!netSend...) toState(FAULTY) else ...`
abbrev pub or_fault : Port → Sent → (System → System) → System
or_fault p sent act = if sent.result == 0 then to_state p faulty sent.system else act sent.system

-- issueAnnounce
unfoldable pub issue_announce : Port → System → System
issue_announce p s =
    let packed = on_obuf (msg_pack_announce s.clock) s in
    let sent = net_send_general p packed.clock.msg_obuf Length.announce packed in
    or_fault p sent (λ r.
      on_clock
        (λ c. record c { sent_announce_sequence_id = s16 (c.sent_announce_sequence_id +ℤ pos 1) })
        r)

-- issueFollowup
unfoldable pub issue_followup : Port → TimeInternal → System → System
issue_followup p t s =
    let packed = on_obuf (λ b. msg_pack_follow_up s.clock b (external_time p t s)) s in
    let sent = net_send_general p packed.clock.msg_obuf Length.follow_up packed in
    or_fault p sent (λ r. r)

-- The rest of `issueSync` once the message is sent at `at`.
sync_sent : Port → TimeInternal → System → System
sync_sent p at s =
    let next =
      on_clock (λ c. record c { sent_sync_sequence_id = s16 (c.sent_sync_sequence_id +ℤ pos 1) })
        s in
    if not (eqb_ℤ at.seconds (pos 0)) && s.clock.default_ds.two_step_flag
    then issue_followup p (add_time at s.clock.outbound_latency) next
    else next

-- issueSync
unfoldable pub issue_sync : Port → System → System
unfolding sync_sent
issue_sync p s =
    let (now, s1) = get_time p s in
    let packed = on_obuf (λ b. msg_pack_sync s.clock b (external_time p now s1)) s1 in
    let sent = net_send_event p packed.clock.msg_obuf Length.sync now packed in
    or_fault p sent (sync_sent p sent.at)

-- `issueDelayReq` up to the message, and after it was sent at `at`.
delay_req_packed : Port → System → System
delay_req_packed p s =
    let (now, s1) = get_time p s in
    on_obuf (λ b. msg_pack_delay_req s.clock b (external_time p now s1)) s1

delay_req_sent : TimeInternal → System → System
delay_req_sent at s =
    on_clock
      (λ c. record c {
        sent_delay_req_sequence_id = s16 (c.sent_delay_req_sequence_id +ℤ pos 1);
        timestamp_delay_req_send =
            if eqb_ℤ at.seconds (pos 0)
            then c.timestamp_delay_req_send
            else add_time at c.outbound_latency;
      })
      s

-- issueDelayReq
unfoldable pub issue_delay_req : Port → System → System
unfolding delay_req_packed delay_req_sent
issue_delay_req p s =
    let packed = delay_req_packed p s in
    let sent = net_send_event p packed.clock.msg_obuf Length.delay_req (get_time p s).0 packed in
    or_fault p sent (delay_req_sent sent.at)

-- issueDelayResp, which sends PDELAY_RESP_LENGTH octets, as many as a Delay_Resp has.
unfoldable pub issue_delay_resp : Port → TimeInternal → MsgHeader → System → System
issue_delay_resp p t header s =
    let packed = on_obuf (λ b. msg_pack_delay_resp s.clock b header (external_time p t s)) s in
    let sent = net_send_general p packed.clock.msg_obuf Length.pdelay_resp packed in
    or_fault p sent (λ r. r)

-- `issuePDelayReq` up to the message, and after it was sent at `at`.
pdelay_req_packed : Port → System → System
pdelay_req_packed p s =
    let (now, s1) = get_time p s in
    on_obuf (λ b. msg_pack_pdelay_req s.clock b (external_time p now s1)) s1

pdelay_req_sent : TimeInternal → System → System
pdelay_req_sent at s =
    on_clock
      (λ c. record c {
        sent_pdelay_req_sequence_id = s16 (c.sent_pdelay_req_sequence_id +ℤ pos 1);
        pdelay_t1 =
            if eqb_ℤ at.seconds (pos 0) then c.pdelay_t1 else add_time at c.outbound_latency;
      })
      s

-- issuePDelayReq
unfoldable pub issue_pdelay_req : Port → System → System
unfolding pdelay_req_packed pdelay_req_sent
issue_pdelay_req p s =
    let packed = pdelay_req_packed p s in
    let sent =
      net_send_peer_event p packed.clock.msg_obuf Length.pdelay_req (get_time p s).0 packed in
    or_fault p sent (pdelay_req_sent sent.at)

-- issuePDelayResp, with what it leaves in `*time`.
unfoldable pub issue_pdelay_resp : Port → TimeInternal → MsgHeader → System → TimeInternal × System
issue_pdelay_resp p t header s =
    let packed = on_obuf (λ b. msg_pack_pdelay_resp b header (external_time p t s)) s in
    let sent = net_send_peer_event p packed.clock.msg_obuf Length.pdelay_resp t packed in
    let late = not (sent.result == 0) && not (eqb_ℤ sent.at.seconds (pos 0)) in
    (if late then add_time sent.at s.clock.outbound_latency else sent.at, or_fault p sent (λ r. r))

-- issuePDelayRespFollowUp
unfoldable pub issue_pdelay_resp_follow_up : Port → TimeInternal → MsgHeader → System → System
issue_pdelay_resp_follow_up p t header s =
    let packed = on_obuf (λ b. msg_pack_pdelay_resp_follow_up b header (external_time p t s)) s in
    let sent = net_send_peer_general p packed.clock.msg_obuf Length.pdelay_resp_follow_up packed in
    or_fault p sent (λ r. r)

-- The timer that has expired is started again, before the request is sent.
request_again : Port → Timer → ℤ → (System → System) → System → System
request_again p t interval issue s =
    let checked = log (lwip_ptp_check_timer t) s in
    let (ms, s1) = get_rand p (pow2ms (interval +ℤ pos 1)) checked in
    if p.expired s.calls t then issue (start_timer t ms s1) else checked

-- The `switch` of `issueDelayReqTimerExpired`.
issue_by : Port → DelayMechanism → System → System
issue_by p e2e s =
    if same_state s.clock.port_ds.port_state slave
    then request_again p delayreq_interval_timer s.clock.port_ds.log_min_delay_req_interval
        (issue_delay_req p) s
    else s
issue_by p p2p s =
    request_again p pdelayreq_interval_timer s.clock.port_ds.log_min_pdelay_req_interval
      (issue_pdelay_req p) s
issue_by p delay_disabled s = s

-- issueDelayReqTimerExpired
unfoldable pub issue_delay_req_timer_expired : Port → System → System
unfolding issue_by request_again
issue_delay_req_timer_expired p s = issue_by p s.clock.port_ds.delay_mechanism s

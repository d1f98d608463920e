-- ===== src/Protocol/Handle.antt =====
-- Handlers of messages in src/protocol.c. The header is unpacked in the clock, and `from_self` tells
-- whether the port sent the message itself.
pub mod Delay
pub mod Peer
pub mod Stranger
pub mod Moves
use ptpd_lwip.Servo.Offset.{update_delay, update_offset}
use ptpd_lwip.Servo.Controller.{update_clock}
use ptpd_lwip.Bmc.Update.{s1}
use ptpd_lwip.Protocol.{start_timer, to_state, announce_wait, is_follower}
use ptpd_lwip.Arith.{scaled_nanoseconds_to_internal_time, to_internal_time, add_time}
use ptpd_lwip.Msg.Unpack.{
  msg_unpack_delay_resp, msg_unpack_announce, msg_unpack_follow_up, msg_unpack_sync,
}
use ptpd_lwip.Bmc.Foreign.{add_foreign, is_same_port_identity}
use ptpd_lwip.Types.Time.{TimeInternal}
use ptpd_lwip.Prelude.Int.{eqb_ℤ, ltb_ℤ, ◌-ℤ◌, pos}
use ptpd_lwip.Protocol.Issue.{issue_delay_req_timer_expired, issue_delay_resp}
use ptpd_lwip.Prelude.{ℕ, Bool, if◌then◌else◌, ◌&&◌, false, true}
use ptpd_lwip.Types.Clock.{PtpClock}
use ptpd_lwip.Types.System.{System, Port, on_clock}
use ptpd_lwip.Types.Opt.Default.{e2e, p2p, delay_disabled}
use ptpd_lwip.Types.Opt.{
  initializing, faulty, disabled, listening, pre_master, passive, uncalibrated, PortState, slave,
  set_flag, announce_receipt_timer, same_state, get_flag, master,
}
use ptpd_lwip.Types.Opt.Length
use ptpd_lwip.Types.Opt.Event
use ptpd_lwip.Types.Opt.Flag

-- The message is shorter than its type asks.
abbrev pub is_short : ℕ → System → Bool
is_short length s = ltb_ℤ s.clock.msg_ibuf_length (pos length)

-- isFromCurrentParent
abbrev pub is_from_parent : PtpClock → Bool
is_from_parent c =
    is_same_port_identity c.parent_ds.parent_port_identity c.msg_tmp_header.source_port_identity

abbrev pub restart_announce : System → System
restart_announce s = start_timer announce_receipt_timer (announce_wait s.clock) s

unpack_announce : PtpClock → PtpClock
unpack_announce c = record c {
  msg_tmp = record (c.msg_tmp) { announce = msg_unpack_announce c.msg_ibuf };
}

decide_later : PtpClock → PtpClock
decide_later c = record c { events = set_flag c.events Event.state_decision_event }

-- A port that follows a master hears an Announce message.
announce_follower : System → System
announce_follower s =
    let c = unpack_announce (decide_later s.clock) in
    if is_from_parent s.clock
    then restart_announce (record s { clock = s1 c c.msg_tmp_header c.msg_tmp.announce })
    else record s { clock = add_foreign c c.msg_tmp_header c.msg_tmp.announce }

-- Another one does.
announce_other : System → System
announce_other s =
    let c = decide_later (unpack_announce s.clock) in
    record s { clock = add_foreign c c.msg_tmp_header c.msg_tmp.announce }

-- The `switch` of `handleAnnounce`.
announce_in : PortState → System → System
announce_in initializing s = s
announce_in faulty s = s
announce_in disabled s = s
announce_in uncalibrated s = announce_follower s
announce_in slave s = announce_follower s
announce_in passive s = announce_other (restart_announce s)
announce_in st s = announce_other s

-- handleAnnounce
unfoldable pub handle_announce : Port → Bool → System → System
unfolding announce_in announce_follower announce_other unpack_announce decide_later
handle_announce p from_self s =
    if is_short Length.announce s
    then to_state p faulty s
    else if from_self
    then s
    else announce_in s.clock.port_ds.port_state s

-- `updateOffset`, `updateClock` and `issueDelayReqTimerExpired` in a row.
synchronize : Port → TimeInternal → TimeInternal → System → System
synchronize p origin correction s =
    issue_delay_req_timer_expired p (
      update_clock p (on_clock (λ c. update_offset c.timestamp_sync_receive origin correction c) s))

-- A Sync message of the parent, which comes in at `t`: a Follow_Up is to follow, or it is not.
sync_of_parent : Port → TimeInternal → System → System
sync_of_parent p t s =
    let header = s.clock.msg_tmp_header in
    let correction = scaled_nanoseconds_to_internal_time header.correction_field in
    let sync = msg_unpack_sync s.clock.msg_ibuf in
    if get_flag header.flag_field0 Flag.two_step
    then on_clock
        (λ c. record c {
          timestamp_sync_receive = t;
          waiting_for_follow_up = true;
          recv_sync_sequence_id = header.sequence_id;
          correction_field_sync = correction;
        })
        s
    else synchronize p (to_internal_time (p.uninitialised_time s.calls) sync.origin_timestamp)
        correction
        (on_clock
          (λ c. record c {
            timestamp_sync_receive = t;
            msg_tmp = record (c.msg_tmp) { sync = sync };
            waiting_for_follow_up = false;
          })
          s)

sync_follower : Port → TimeInternal → Bool → System → System
sync_follower p t from_self s =
    if from_self then s else if is_from_parent s.clock then sync_of_parent p t s else s

-- The `switch` of `handleSync`.
sync_in : Port → PortState → TimeInternal → Bool → System → System
sync_in p uncalibrated t from_self s = sync_follower p t from_self s
sync_in p slave t from_self s = sync_follower p t from_self s
sync_in p passive t from_self s = issue_delay_req_timer_expired p s
sync_in p st t from_self s = s

-- handleSync
unfoldable pub handle_sync : Port → TimeInternal → Bool → System → System
unfolding sync_in sync_follower sync_of_parent synchronize
handle_sync p t from_self s =
    if is_short Length.sync s
    then to_state p faulty s
    else sync_in p s.clock.port_ds.port_state t from_self s

-- The Follow_Up that the port waits for.
follow_up_of_parent : Port → System → System
follow_up_of_parent p s =
    let follow = msg_unpack_follow_up s.clock.msg_ibuf in
    let correction = scaled_nanoseconds_to_internal_time s.clock.msg_tmp_header.correction_field in
    synchronize p (to_internal_time (p.uninitialised_time s.calls) follow.precise_origin_timestamp)
      (add_time correction s.clock.correction_field_sync)
      (on_clock
        (λ c. record c {
          msg_tmp = record (c.msg_tmp) { follow = follow };
          waiting_for_follow_up = false;
        })
        s)

follow_up_follower : Port → System → System
follow_up_follower p s =
    let c = s.clock in
    let is_current = eqb_ℤ c.recv_sync_sequence_id c.msg_tmp_header.sequence_id in
    if c.waiting_for_follow_up && is_from_parent c && is_current then follow_up_of_parent p s else s

-- The `switch` of `handleFollowUp`.
follow_up_in : Port → PortState → System → System
follow_up_in p uncalibrated s = follow_up_follower p s
follow_up_in p slave s = follow_up_follower p s
follow_up_in p passive s = issue_delay_req_timer_expired p s
follow_up_in p st s = s

-- handleFollowUp
unfoldable pub handle_follow_up : Port → Bool → System → System
unfolding follow_up_in follow_up_follower follow_up_of_parent synchronize
handle_follow_up p from_self s =
    if is_short Length.follow_up s
    then to_state p faulty s
    else if from_self
    then s
    else follow_up_in p s.clock.port_ds.port_state s

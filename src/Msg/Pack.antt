-- ===== src/Msg/Pack.antt =====
-- The packers of src/msg.c. Each returns the buffer that it leaves.
use ptpd_lwip.Prelude.Word.{u32, u16, u8}
use ptpd_lwip.Prelude.{if◌then◌else◌}
use ptpd_lwip.Types.Time.{Timestamp}
use ptpd_lwip.Msg.Bytes.{put32, put16, write, put_type, clear, put_identity, put_timestamp}
use ptpd_lwip.Types.Message.{MsgHeader}
use ptpd_lwip.Prelude.Int.{ℤ, shr_ℤ, ◌-ℤ◌, pos}
use ptpd_lwip.Types.Clock.{Buffer, PtpClock}
use ptpd_lwip.Types.Opt.MessageType
use ptpd_lwip.Types.Opt.ControlField
use ptpd_lwip.Types.Opt.Length
use ptpd_lwip.Types.Opt.Flag

unfoldable pub msg_pack_header : PtpClock → Buffer → Buffer
msg_pack_header c buf =
    let b1 = write (write buf 0 0x80) 1 c.port_ds.version_number in
    let b2 = write b1 4 c.default_ds.domain_number in
    let b3 = if c.default_ds.two_step_flag then write b2 6 Flag.two_step else b2 in
    let b4 = put_identity (clear b3 8 8) 20 c.port_ds.port_identity.clock_identity in
    write (put16 b4 28 (u16 c.port_ds.port_identity.port_number)) 33 0x7f

unfoldable pub msg_pack_announce : PtpClock → Buffer → Buffer
msg_pack_announce c buf =
    let b1 = put16 (put_type buf MessageType.announce) 2 Length.announce in
    let b2 = write (put16 b1 30 (u16 c.sent_announce_sequence_id)) 32 ControlField.other in
    let b3 = clear (write b2 33 (u8 c.port_ds.log_announce_interval)) 34 10 in
    let b4 = put16 b3 44 (u16 c.time_properties_ds.current_utc_offset) in
    let b5 = write b4 47 c.parent_ds.grandmaster_priority1 in
    let b6 = write b5 48 c.default_ds.clock_quality.clock_class in
    let b7 = write b6 49 c.default_ds.clock_quality.clock_accuracy in
    let b8 = put16 b7 50 (u16 c.default_ds.clock_quality.offset_scaled_log_variance) in
    let b9 = write b8 52 c.parent_ds.grandmaster_priority2 in
    let b10 = put_identity b9 53 c.parent_ds.grandmaster_identity in
    write (put16 b10 61 (u16 c.current_ds.steps_removed)) 63 c.time_properties_ds.time_source

unfoldable pub msg_pack_sync : PtpClock → Buffer → Timestamp → Buffer
msg_pack_sync c buf origin_timestamp =
    let b1 = put16 (put_type buf MessageType.sync) 2 Length.sync in
    let b2 = write (put16 b1 30 (u16 c.sent_sync_sequence_id)) 32 ControlField.sync in
    let b3 = clear (write b2 33 (u8 c.port_ds.log_sync_interval)) 8 8 in
    put_timestamp b3 origin_timestamp

unfoldable pub msg_pack_delay_req : PtpClock → Buffer → Timestamp → Buffer
msg_pack_delay_req c buf origin_timestamp =
    let b1 = put16 (put_type buf MessageType.delay_req) 2 Length.delay_req in
    let b2 = write (put16 b1 30 (u16 c.sent_delay_req_sequence_id)) 32 ControlField.delay_req in
    put_timestamp (clear (write b2 33 0x7f) 8 8) origin_timestamp

-- The sequence number was incremented after the Sync message was sent.
unfoldable pub msg_pack_follow_up : PtpClock → Buffer → Timestamp → Buffer
msg_pack_follow_up c buf precise_origin_timestamp =
    let b1 = put16 (put_type buf MessageType.follow_up) 2 Length.follow_up in
    let b2 = put16 b1 30 (u16 (c.sent_sync_sequence_id -ℤ pos 1)) in
    let b3 = write (write b2 32 ControlField.follow_up) 33 (u8 c.port_ds.log_sync_interval) in
    put_timestamp b3 precise_origin_timestamp

-- The correction field's two halves at `buf + 8`.
abbrev pub put_correction : Buffer → ℤ → Buffer
put_correction buf x = put32 (put32 buf 8 (u32 (shr_ℤ x 32))) 12 (u32 x)

unfoldable pub msg_pack_delay_resp : PtpClock → Buffer → MsgHeader → Timestamp → Buffer
msg_pack_delay_resp c buf header receive_timestamp =
    let b1 = put16 (put_type buf MessageType.delay_resp) 2 Length.delay_resp in
    let b2 = put_correction (clear b1 8 8) header.correction_field in
    let b3 = write (put16 b2 30 (u16 header.sequence_id)) 32 ControlField.delay_resp in
    let b4 = write b3 33 (u8 c.port_ds.log_min_delay_req_interval) in
    let b5 = put_timestamp b4 receive_timestamp in
    let b6 = put_identity b5 44 header.source_port_identity.clock_identity in
    put16 b6 52 (u16 header.source_port_identity.port_number)

unfoldable pub msg_pack_pdelay_req : PtpClock → Buffer → Timestamp → Buffer
msg_pack_pdelay_req c buf origin_timestamp =
    let b1 = put16 (put_type buf MessageType.pdelay_req) 2 Length.pdelay_req in
    let b2 = write (put16 b1 30 (u16 c.sent_pdelay_req_sequence_id)) 32 ControlField.other in
    let b3 = put_timestamp (clear (write b2 33 0x7f) 8 8) origin_timestamp in clear b3 44 10

unfoldable pub msg_pack_pdelay_resp : Buffer → MsgHeader → Timestamp → Buffer
msg_pack_pdelay_resp buf header request_receipt_timestamp =
    let b1 = clear (put16 (put_type buf MessageType.pdelay_resp) 2 Length.pdelay_resp) 8 8 in
    let b2 = write (put16 b1 30 (u16 header.sequence_id)) 32 ControlField.other in
    let b3 = put_timestamp (write b2 33 0x7f) request_receipt_timestamp in
    let b4 = put_identity b3 44 header.source_port_identity.clock_identity in
    put16 b4 52 (u16 header.source_port_identity.port_number)

unfoldable pub msg_pack_pdelay_resp_follow_up : Buffer → MsgHeader → Timestamp → Buffer
msg_pack_pdelay_resp_follow_up buf header response_origin_timestamp =
    let b1 = put_type buf MessageType.pdelay_resp_follow_up in
    let b2 = put16 (put16 b1 2 Length.pdelay_resp_follow_up) 30 (u16 header.sequence_id) in
    let b3 = write (write b2 32 ControlField.other) 33 0x7f in
    let b4 = put_timestamp (put_correction b3 header.correction_field) response_origin_timestamp in
    let b5 = put_identity b4 44 header.source_port_identity.clock_identity in
    put16 b5 52 (u16 header.source_port_identity.port_number)

-- ===== src/Msg/Unpack.antt =====
-- The unpackers of src/msg.c. They overwrite every field that the message has.
use ptpd_lwip.Prelude.Word.{s16, s64, s8}
use ptpd_lwip.Msg.Bytes.{get_timestamp, get_identity, get16, get32}
use ptpd_lwip.Types.Message.{
  MsgHeader, MsgOrigin, MsgDelayResp, MsgPDelayRespFollowUp, MsgFollowUp, MsgPDelayResp,
  MsgAnnounce, PortIdentity,
}
use ptpd_lwip.Prelude.Int.{ℤ, pos, ◌+ℤ◌}
use ptpd_lwip.Prelude.{ℕ, ◌/◌, ◌^◌, bit_and, ◌*◌}
use ptpd_lwip.Types.Clock.{Buffer}

-- A number from the wire, stored in a signed field.
abbrev pub get_s16 : Buffer → ℕ → ℤ
get_s16 buf off = s16 (pos (get16 buf off))

-- The correction field: `flip32` gives an unsigned number, which is shifted and added in s64_t.
abbrev pub get_correction : Buffer → ℤ
get_correction buf = s64 (s64 (pos (get32 buf 8 * 2 ^ 32)) +ℤ pos (get32 buf 12))

abbrev pub get_port : Buffer → ℕ → ℕ → PortIdentity
get_port buf off at = record { clock_identity = get_identity buf off; port_number = get_s16 buf at }

unfoldable pub msg_unpack_header : Buffer → MsgHeader
msg_unpack_header buf = record {
  transport_specific = buf 0 / 2 ^ 4;
  message_type = bit_and (buf 0) 0x0f;
  version_ptp = bit_and (buf 1) 0x0f;
  message_length = get_s16 buf 2;
  domain_number = buf 4;
  flag_field0 = buf 6;
  flag_field1 = buf 7;
  correction_field = get_correction buf;
  source_port_identity = get_port buf 20 28;
  sequence_id = get_s16 buf 30;
  control_field = buf 32;
  log_message_interval = s8 (pos (buf 33));
}

unfoldable pub msg_unpack_announce : Buffer → MsgAnnounce
msg_unpack_announce buf = record {
  origin_timestamp = get_timestamp buf;
  current_utc_offset = get_s16 buf 44;
  grandmaster_priority1 = buf 47;
  grandmaster_clock_quality = record {
    clock_class = buf 48;
    clock_accuracy = buf 49;
    offset_scaled_log_variance = get_s16 buf 50;
  };
  grandmaster_priority2 = buf 52;
  grandmaster_identity = get_identity buf 53;
  steps_removed = get_s16 buf 61;
  time_source = buf 63;
}

unfoldable pub msg_unpack_sync : Buffer → MsgOrigin
msg_unpack_sync buf = record { origin_timestamp = get_timestamp buf }

unfoldable pub msg_unpack_delay_req : Buffer → MsgOrigin
msg_unpack_delay_req buf = record { origin_timestamp = get_timestamp buf }

unfoldable pub msg_unpack_follow_up : Buffer → MsgFollowUp
msg_unpack_follow_up buf = record { precise_origin_timestamp = get_timestamp buf }

unfoldable pub msg_unpack_delay_resp : Buffer → MsgDelayResp
msg_unpack_delay_resp buf = record {
  receive_timestamp = get_timestamp buf;
  requesting_port_identity = get_port buf 44 52;
}

unfoldable pub msg_unpack_pdelay_req : Buffer → MsgOrigin
msg_unpack_pdelay_req buf = record { origin_timestamp = get_timestamp buf }

unfoldable pub msg_unpack_pdelay_resp : Buffer → MsgPDelayResp
msg_unpack_pdelay_resp buf = record {
  request_receipt_timestamp = get_timestamp buf;
  requesting_port_identity = get_port buf 44 52;
}

unfoldable pub msg_unpack_pdelay_resp_follow_up : Buffer → MsgPDelayRespFollowUp
msg_unpack_pdelay_resp_follow_up buf = record {
  response_origin_timestamp = get_timestamp buf;
  requesting_port_identity = get_port buf 44 52;
}

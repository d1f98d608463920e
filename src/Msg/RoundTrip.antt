-- ===== src/Msg/RoundTrip.antt =====
-- The packers of src/msg.c followed by the unpackers of the same messages.
use ptpd_lwip.Msg.Octets.{back16, join16, join32, u32-lt}
use ptpd_lwip.Types.Message.{PortIdentity, MsgHeader}
use ptpd_lwip.Msg.Pack.{
  msg_pack_sync, msg_pack_announce, msg_pack_follow_up, msg_pack_delay_resp, put_correction,
  msg_pack_pdelay_resp_follow_up, msg_pack_delay_req, msg_pack_pdelay_resp, msg_pack_pdelay_req,
}
use ptpd_lwip.Prelude.Word.{s16, IsS16, u16, s64, IsS64, u32}
use ptpd_lwip.Msg.Unpack.{
  msg_unpack_sync, msg_unpack_header, msg_unpack_delay_resp, msg_unpack_follow_up,
  msg_unpack_announce, get_correction, msg_unpack_pdelay_resp, msg_unpack_delay_req,
  msg_unpack_pdelay_resp_follow_up, msg_unpack_pdelay_req,
}
use ptpd_lwip.Prelude.Int.{ℤ, pos, negsuc, ◌+ℤ◌, shr_ℤ}
use ptpd_lwip.Prelude.{◌^◌, ◌≡◌, arith, ◌/◌, ◌*◌, ◌+◌, ◌%◌}
use ptpd_lwip.Types.Clock.{Buffer, PtpClock}
use ptpd_lwip.Types.Time.{Timestamp, IsTimestamp, timestamp}

timestamp_back :
    (t : Timestamp)
    → IsTimestamp t
    → timestamp
        (t.seconds_field.msb / 256 * 256 + t.seconds_field.msb % 256)
        ((t.seconds_field.lsb / 2 ^ 16 / 256 * 256 + t.seconds_field.lsb / 2 ^ 16 % 256) * 2 ^ 16
          + (t.seconds_field.lsb % 2 ^ 16 / 256 * 256 + t.seconds_field.lsb % 2 ^ 16 % 256))
        ((t.nanoseconds_field / 2 ^ 16 / 256 * 256 + t.nanoseconds_field / 2 ^ 16 % 256) * 2 ^ 16
          + (t.nanoseconds_field % 2 ^ 16 / 256 * 256 + t.nanoseconds_field % 2 ^ 16 % 256))
      ≡ t
timestamp_back t h = λ i.
    timestamp (join16 t.seconds_field.msb h.msb_in i) (join32 t.seconds_field.lsb h.lsb_in i)
      (join32 t.nanoseconds_field h.nanoseconds_in i)

port_back :
    (p : PortIdentity)
    → IsS16 p.port_number
    → record {
      clock_identity = p.clock_identity;
      port_number = s16 (pos (u16 p.port_number / 256 * 256 + u16 p.port_number % 256));
    }
      ≡ p
port_back p h =
    λ i. record { clock_identity = p.clock_identity; port_number = back16 p.port_number h i }

halves : (z : ℤ) → IsS64 z → s64 (s64 (pos (u32 (shr_ℤ z 32) * 2 ^ 32)) +ℤ pos (u32 z)) ≡ z
unfolding s64 ◌+ℤ◌
halves (pos n) h = ground arith
halves (negsuc n) h = ground arith

halves_back : (z : ℤ) → IsS64 z → get_correction (put_correction (λ _. 0) z) ≡ z
halves_back z h =
    rw (join32 (u32 (shr_ℤ z 32)) (u32-lt (shr_ℤ z 32)))
      (rw (join32 (u32 z) (u32-lt z)) (halves z h))

-- The four messages whose body is one timestamp (Sync, Follow_Up, Delay_Req and Pdelay_Req) carry
-- it unchanged, whatever the buffer held before.
pub unpack-pack_origin :
    (c : PtpClock) (buf : Buffer) (t : Timestamp)
    → IsTimestamp t
    → (msg_unpack_sync (msg_pack_sync c buf t) ≡ record { origin_timestamp = t })
      × (msg_unpack_follow_up (msg_pack_follow_up c buf t)
          ≡ record { precise_origin_timestamp = t })
      × (msg_unpack_delay_req (msg_pack_delay_req c buf t) ≡ record { origin_timestamp = t })
      × (msg_unpack_pdelay_req (msg_pack_pdelay_req c buf t) ≡ record { origin_timestamp = t })
unfolding msg_unpack_sync msg_pack_sync msg_unpack_follow_up msg_pack_follow_up msg_unpack_delay_req
    msg_pack_delay_req msg_unpack_pdelay_req msg_pack_pdelay_req
unpack-pack_origin c buf t h = (
  λ i. record { origin_timestamp = timestamp_back t h i },
  λ i. record { precise_origin_timestamp = timestamp_back t h i },
  λ i. record { origin_timestamp = timestamp_back t h i },
  λ i. record { origin_timestamp = timestamp_back t h i },
)

-- The three responses carry their timestamp and the identity of the port that asked, whatever the
-- buffer held before.
pub unpack-pack_response :
    (c : PtpClock) (buf : Buffer) (h : MsgHeader) (t : Timestamp)
    → IsTimestamp t
    → IsS16 h.source_port_identity.port_number
    → (msg_unpack_delay_resp (msg_pack_delay_resp c buf h t)
        ≡ record { receive_timestamp = t; requesting_port_identity = h.source_port_identity })
      × (msg_unpack_pdelay_resp (msg_pack_pdelay_resp buf h t) ≡ record {
        request_receipt_timestamp = t;
        requesting_port_identity = h.source_port_identity;
      })
      × (msg_unpack_pdelay_resp_follow_up (msg_pack_pdelay_resp_follow_up buf h t) ≡ record {
        response_origin_timestamp = t;
        requesting_port_identity = h.source_port_identity;
      })
unfolding msg_unpack_delay_resp msg_pack_delay_resp msg_unpack_pdelay_resp msg_pack_pdelay_resp
    msg_unpack_pdelay_resp_follow_up msg_pack_pdelay_resp_follow_up
unpack-pack_response c buf h t ht hp = (
  λ i. record {
    receive_timestamp = timestamp_back t ht i;
    requesting_port_identity = port_back h.source_port_identity hp i;
  },
  λ i. record {
    request_receipt_timestamp = timestamp_back t ht i;
    requesting_port_identity = port_back h.source_port_identity hp i;
  },
  λ i. record {
    response_origin_timestamp = timestamp_back t ht i;
    requesting_port_identity = port_back h.source_port_identity hp i;
  },
)

-- Announce: a receiver reads the sender's data sets, and no origin timestamp.
pub unpack_announce-pack_announce :
    (c : PtpClock) (buf : Buffer)
    → IsS16 c.time_properties_ds.current_utc_offset
    → IsS16 c.default_ds.clock_quality.offset_scaled_log_variance
    → IsS16 c.current_ds.steps_removed
    → msg_unpack_announce (msg_pack_announce c buf) ≡ record {
      origin_timestamp = timestamp 0 0 0;
      current_utc_offset = c.time_properties_ds.current_utc_offset;
      grandmaster_priority1 = c.parent_ds.grandmaster_priority1;
      grandmaster_clock_quality = c.default_ds.clock_quality;
      grandmaster_priority2 = c.parent_ds.grandmaster_priority2;
      grandmaster_identity = c.parent_ds.grandmaster_identity;
      steps_removed = c.current_ds.steps_removed;
      time_source = c.time_properties_ds.time_source;
    }
unfolding msg_unpack_announce msg_pack_announce
unpack_announce-pack_announce c buf h k l = λ i. record {
  origin_timestamp = timestamp 0 0 0;
  current_utc_offset = back16 c.time_properties_ds.current_utc_offset h i;
  grandmaster_priority1 = c.parent_ds.grandmaster_priority1;
  grandmaster_clock_quality = record {
    clock_class = c.default_ds.clock_quality.clock_class;
    clock_accuracy = c.default_ds.clock_quality.clock_accuracy;
    offset_scaled_log_variance = back16 c.default_ds.clock_quality.offset_scaled_log_variance k i;
  };
  grandmaster_priority2 = c.parent_ds.grandmaster_priority2;
  grandmaster_identity = c.parent_ds.grandmaster_identity;
  steps_removed = back16 c.current_ds.steps_removed l i;
  time_source = c.time_properties_ds.time_source;
}

-- The correction field of a request comes back to the requester in the Delay_Resp and in the
-- Pdelay_Resp_Follow_Up that answer it, negative values too.
pub correction-pack_response :
    (c : PtpClock) (buf : Buffer) (h : MsgHeader) (t : Timestamp)
    → IsS64 h.correction_field
    → ((msg_unpack_header (msg_pack_delay_resp c buf h t)).correction_field ≡ h.correction_field)
      × ((msg_unpack_header (msg_pack_pdelay_resp_follow_up buf h t)).correction_field
          ≡ h.correction_field)
unfolding msg_unpack_header msg_pack_delay_resp msg_pack_pdelay_resp_follow_up
correction-pack_response c buf h t k =
    (halves_back h.correction_field k, halves_back h.correction_field k)

-- ===== src/Msg/Examples.antt =====
-- Runs of src/msg.c and instances of the theorems about it.
use ptpd_lwip.Types.Message.{MsgHeader}
use ptpd_lwip.Msg.Footprint.{pack_footprint}
use ptpd_lwip.Msg.RoundTrip.{
  correction-pack_response, unpack_announce-pack_announce, unpack-pack_response, unpack-pack_origin,
}
use ptpd_lwip.Prelude.Int.{negsuc, ◌-ℤ◌, pos}
use ptpd_lwip.Prelude.Word.{residue, s16, signed}
use ptpd_lwip.Prelude.{arith, ◌≡◌, refl}
use ptpd_lwip.Types.Sample.{sample_clock, sample_header}
use ptpd_lwip.Msg.Stamp.{pack, pdelay_resp, follow_up, pack-Describes}
use ptpd_lwip.Msg.Header.{Describes, HasHeader, pack_header-HasHeader}
use ptpd_lwip.Msg.Pack.{
  msg_pack_announce, msg_pack_delay_resp, msg_pack_sync, msg_pack_header,
  msg_pack_pdelay_resp_follow_up, msg_pack_follow_up, msg_pack_pdelay_resp, msg_pack_delay_req,
  msg_pack_pdelay_req,
}
use ptpd_lwip.Msg.Unpack.{
  msg_unpack_announce, msg_unpack_delay_resp, msg_unpack_sync, msg_unpack_header,
  msg_unpack_follow_up, msg_unpack_pdelay_resp, msg_unpack_delay_req,
  msg_unpack_pdelay_resp_follow_up, msg_unpack_pdelay_req,
}
use ptpd_lwip.Types.Time.{Timestamp, IsTimestamp, timestamp}
use ptpd_lwip.Types.Clock.{Buffer}

noon : Timestamp
noon = timestamp 1 3735928559 999999999

noon-IsTimestamp : IsTimestamp noon
unfolding noon
noon-IsTimestamp = omega arith

empty : Buffer
empty q = 255

announce_octets :
    let buf = msg_pack_announce sample_clock (msg_pack_header sample_clock (λ _. 0)) in
    (buf 0 ≡ 0x8b) × (buf 3 ≡ 64) × (buf 31 ≡ 7) × (buf 51 ≡ 136)
unfolding msg_pack_announce msg_pack_header residue
announce_octets = (refl, refl, refl, refl)

unpack-pack_origin_example :
    (msg_unpack_sync (msg_pack_sync sample_clock empty noon) ≡ record { origin_timestamp = noon })
    × (msg_unpack_follow_up (msg_pack_follow_up sample_clock empty noon)
        ≡ record { precise_origin_timestamp = noon })
    × (msg_unpack_delay_req (msg_pack_delay_req sample_clock empty noon)
        ≡ record { origin_timestamp = noon })
    × (msg_unpack_pdelay_req (msg_pack_pdelay_req sample_clock empty noon)
        ≡ record { origin_timestamp = noon })
unpack-pack_origin_example = unpack-pack_origin sample_clock empty noon noon-IsTimestamp

unpack-pack_response_example :
    (msg_unpack_delay_resp (msg_pack_delay_resp sample_clock empty sample_header noon) ≡ record {
      receive_timestamp = noon;
      requesting_port_identity = sample_header.source_port_identity;
    })
    × (msg_unpack_pdelay_resp (msg_pack_pdelay_resp empty sample_header noon) ≡ record {
      request_receipt_timestamp = noon;
      requesting_port_identity = sample_header.source_port_identity;
    })
    × (msg_unpack_pdelay_resp_follow_up (msg_pack_pdelay_resp_follow_up empty sample_header noon)
        ≡ record {
          response_origin_timestamp = noon;
          requesting_port_identity = sample_header.source_port_identity;
        })
unpack-pack_response_example =
    unpack-pack_response sample_clock empty sample_header noon noon-IsTimestamp (omega arith)

unpack_announce-pack_announce_example :
    msg_unpack_announce (msg_pack_announce sample_clock empty) ≡ record {
      origin_timestamp = timestamp 0 0 0;
      current_utc_offset = sample_clock.time_properties_ds.current_utc_offset;
      grandmaster_priority1 = sample_clock.parent_ds.grandmaster_priority1;
      grandmaster_clock_quality = sample_clock.default_ds.clock_quality;
      grandmaster_priority2 = sample_clock.parent_ds.grandmaster_priority2;
      grandmaster_identity = sample_clock.parent_ds.grandmaster_identity;
      steps_removed = sample_clock.current_ds.steps_removed;
      time_source = sample_clock.time_properties_ds.time_source;
    }
unpack_announce-pack_announce_example =
    unpack_announce-pack_announce sample_clock empty (omega arith) (omega arith) (omega arith)

pack-Describes_example :
    Describes sample_clock 8 44
      (s16 (negsuc 0 -ℤ pos 1))
      (msg_unpack_header (pack sample_clock (follow_up noon) (msg_pack_header sample_clock empty)))
    × HasHeader sample_clock
        (pack sample_clock (follow_up noon) (msg_pack_header sample_clock empty))
pack-Describes_example =
    pack-Describes sample_clock (follow_up noon) (msg_pack_header sample_clock empty) (omega arith)
      (omega arith) (pack_header-HasHeader sample_clock empty)

footprint_length :
    (msg_unpack_header (pack sample_clock (pdelay_resp sample_header noon) empty)).message_length
    ≡ pos 54
unfolding pack msg_pack_pdelay_resp msg_unpack_header s16 residue signed
footprint_length = refl

pack_footprint_example : pack sample_clock (pdelay_resp sample_header noon) empty 54 ≡ empty 54
pack_footprint_example =
    pack_footprint sample_clock (pdelay_resp sample_header noon) empty 54 54 footprint_length
      (omega arith)

-- A request with a negative correction.
abbrev corrected : MsgHeader
corrected = record sample_header { correction_field = negsuc 65535 }

correction-pack_response_example :
    ((msg_unpack_header (msg_pack_delay_resp sample_clock empty corrected noon)).correction_field
      ≡ negsuc 65535)
    × ((msg_unpack_header (msg_pack_pdelay_resp_follow_up empty corrected noon)).correction_field
        ≡ negsuc 65535)
correction-pack_response_example =
    correction-pack_response sample_clock empty corrected noon (omega arith)

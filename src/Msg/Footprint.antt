-- ===== src/Msg/Footprint.antt =====
-- The part of a buffer that the packers of src/msg.c write.
use ptpd_lwip.Prelude.Int.{pos}
use ptpd_lwip.Msg.Unpack.{msg_unpack_header}
use ptpd_lwip.Prelude.{ℕ, ◌≤◌, ◌≡◌, arith, sym, ◌∙◌}
use ptpd_lwip.Msg.Pack.{
  msg_pack_announce, msg_pack_sync, msg_pack_delay_req, msg_pack_follow_up, msg_pack_pdelay_req,
  msg_pack_delay_resp, msg_pack_pdelay_resp, msg_pack_pdelay_resp_follow_up,
}
use ptpd_lwip.Msg.Stamp.{pack, Message, length_of, announce, pack-IsStamped}
use ptpd_lwip.Types.Clock.{Buffer, PtpClock}

pack-beyond :
    (c : PtpClock) (m : Message) (buf : Buffer) (q : ℕ) → length_of m ≤ q → pack c m buf q ≡ buf q
unfolding pack msg_pack_announce msg_pack_sync msg_pack_delay_req msg_pack_follow_up
    msg_pack_pdelay_req msg_pack_delay_resp msg_pack_pdelay_resp msg_pack_pdelay_resp_follow_up
pack-beyond c announce buf q h = ground arith
pack-beyond c m buf q h = ground arith

-- No packer writes beyond the length that a receiver then reads in the header.
pub pack_footprint :
    (c : PtpClock) (m : Message) (buf : Buffer) (n q : ℕ)
    → (msg_unpack_header (pack c m buf)).message_length ≡ pos n
    → n ≤ q
    → pack c m buf q ≡ buf q
unfolding msg_unpack_header
pack_footprint c m buf n q e h =
    let same : pos (length_of m) ≡ pos n = sym (pack-IsStamped c m buf).length_is ∙ e in
    pack-beyond c m buf q (ground (arith, same, h))

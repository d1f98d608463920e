-- ===== src/Msg/Stamp.antt =====
-- The header of each message that src/msg.c packs over a buffer that holds the clock's header.
use ptpd_lwip.Msg.Unpack.{msg_unpack_header}
use ptpd_lwip.Msg.Header.{
  typed, IsStamped, HasHeader, Describes, stamped-Describes, stamped-HasHeader,
}
use ptpd_lwip.Msg.Octets.{join16, u16-lt, s16-u16_wrap}
use ptpd_lwip.Types.Message.{MsgHeader}
use ptpd_lwip.Prelude.{ℕ, ◌<◌, ◌+◌, arith, ◌/◌, ◌*◌, ◌%◌, ◌≡◌, ap, ◌∙◌, refl}
use ptpd_lwip.Types.Time.{Timestamp}
use ptpd_lwip.Prelude.Int.{ℤ, ◌-ℤ◌, pos}
use ptpd_lwip.Prelude.Word.{s16, u16, IsS16}
use ptpd_lwip.Msg.Pack.{
  msg_pack_announce, msg_pack_sync, msg_pack_delay_req, msg_pack_follow_up, msg_pack_pdelay_req,
  msg_pack_delay_resp, msg_pack_pdelay_resp, msg_pack_pdelay_resp_follow_up,
}
use ptpd_lwip.Types.Clock.{Buffer, PtpClock}
use ptpd_lwip.Types.Opt.MessageType

-- The messages that an issuing function packs from the clock, with what the packer is given.
pub data Message : Type 0 where
  announce : Message
  sync delay_req follow_up pdelay_req : Timestamp → Message
  delay_resp pdelay_resp pdelay_resp_follow_up : MsgHeader → Timestamp → Message

unfoldable pub pack : PtpClock → Message → Buffer → Buffer
pack c announce buf = msg_pack_announce c buf
pack c (sync t) buf = msg_pack_sync c buf t
pack c (delay_req t) buf = msg_pack_delay_req c buf t
pack c (follow_up t) buf = msg_pack_follow_up c buf t
pack c (pdelay_req t) buf = msg_pack_pdelay_req c buf t
pack c (delay_resp h t) buf = msg_pack_delay_resp c buf h t
pack c (pdelay_resp h t) buf = msg_pack_pdelay_resp buf h t
pack c (pdelay_resp_follow_up h t) buf = msg_pack_pdelay_resp_follow_up buf h t

-- Its type (Table 19), its length in octets, and its sequence number: the clock's own, the one
-- before it for a Follow_Up, and that of the request for a response.
abbrev pub type_of : Message → ℕ
type_of announce = MessageType.announce
type_of (sync t) = MessageType.sync
type_of (delay_req t) = MessageType.delay_req
type_of (follow_up t) = MessageType.follow_up
type_of (pdelay_req t) = MessageType.pdelay_req
type_of (delay_resp h t) = MessageType.delay_resp
type_of (pdelay_resp h t) = MessageType.pdelay_resp
type_of (pdelay_resp_follow_up h t) = MessageType.pdelay_resp_follow_up

abbrev pub length_of : Message → ℕ
length_of announce = 64
length_of (sync t) = 44
length_of (delay_req t) = 44
length_of (follow_up t) = 44
length_of (pdelay_req t) = 54
length_of (delay_resp h t) = 54
length_of (pdelay_resp h t) = 54
length_of (pdelay_resp_follow_up h t) = 54

abbrev pub number_of : PtpClock → Message → ℤ
number_of c announce = c.sent_announce_sequence_id
number_of c (sync t) = c.sent_sync_sequence_id
number_of c (delay_req t) = c.sent_delay_req_sequence_id
number_of c (follow_up t) = c.sent_sync_sequence_id -ℤ pos 1
number_of c (pdelay_req t) = c.sent_pdelay_req_sequence_id
number_of c (delay_resp h t) = h.sequence_id
number_of c (pdelay_resp h t) = h.sequence_id
number_of c (pdelay_resp_follow_up h t) = h.sequence_id

type_of-lt : (m : Message) → type_of m < 16
type_of-lt announce = omega arith
type_of-lt _ = omega arith

number_lem : (z : ℤ) → s16 (pos (u16 z / 256 * 256 + u16 z % 256)) ≡ s16 z
number_lem z = ap (λ x. s16 (pos x)) (join16 (u16 z) (u16-lt z)) ∙ s16-u16_wrap z

pub pack-IsStamped :
    (c : PtpClock) (m : Message) (buf : Buffer)
    → IsStamped (type_of m) (length_of m) (s16 (number_of c m)) buf (pack c m buf)
unfolding pack typed s16 msg_pack_announce msg_pack_sync msg_pack_delay_req msg_pack_follow_up
    msg_pack_pdelay_req msg_pack_delay_resp msg_pack_pdelay_resp msg_pack_pdelay_resp_follow_up
pack-IsStamped c announce buf = record {
  head = refl;
  version = refl;
  length_is = refl;
  domain = refl;
  flags = refl;
  identity = refl;
  port = refl;
  sequence = number_lem (number_of c announce);
}
pack-IsStamped c m buf = record {
  head = refl;
  version = refl;
  length_is = refl;
  domain = refl;
  flags = refl;
  identity = refl;
  port = refl;
  sequence = number_lem (number_of c m);
}

-- Whatever message is packed over a buffer that holds the clock's header, a receiver reads in its
-- header the type, the length and the sequence number (as a signed number of 16 bits) of that
-- message, the clock's version, domain and port identity, and the two-step flag if the clock sets
-- it. The buffer still holds the clock's header, so the next message can be packed over it.
pub pack-Describes :
    (c : PtpClock) (m : Message) (buf : Buffer)
    → c.port_ds.version_number < 16
    → IsS16 c.port_ds.port_identity.port_number
    → HasHeader c buf
    → Describes c (type_of m) (length_of m) (s16 (number_of c m)) (msg_unpack_header (pack c m buf))
      × HasHeader c (pack c m buf)
pack-Describes c m buf v p h = (
  stamped-Describes c v p (type_of-lt m) h (pack-IsStamped c m buf),
  stamped-HasHeader c v p (type_of-lt m) h (pack-IsStamped c m buf),
)

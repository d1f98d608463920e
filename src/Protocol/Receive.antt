-- ===== src/Protocol/Receive.antt =====
-- `handle` of src/protocol.c, which receives a message and gives it to its handler.
pub mod Moves
pub mod Error
pub mod Kept
use ptpd_lwip.Protocol.Handle.Peer.{
  handle_pdelay_req, handle_pdelay_resp, handle_pdelay_resp_follow_up,
}
use ptpd_lwip.Protocol.Handle.Delay.{handle_delay_req, handle_delay_resp}
use ptpd_lwip.Types.Opt.{faulty}
use ptpd_lwip.Arith.{sub_time}
use ptpd_lwip.Protocol.{to_state}
use ptpd_lwip.Protocol.Handle.{handle_announce, is_short, handle_sync, handle_follow_up}
use ptpd_lwip.Prelude.Int.{pos, ltb_ℤ}
use ptpd_lwip.Msg.Unpack.{msg_unpack_header}
use ptpd_lwip.Bmc.Foreign.{is_same_port_identity}
use ptpd_lwip.Types.Time.{TimeInternal, zero_time}
use ptpd_lwip.Types.System.{Port, System, on_clock}
use ptpd_lwip.Types.Clock.{PtpClock}
use ptpd_lwip.Prelude.{Bool, ◌==◌, ℕ, if◌then◌else◌, ◌&&◌, true, not}
use ptpd_lwip.Net.Receive.{Received, net_recv_event, net_recv_general}
use ptpd_lwip.Types.Opt.MessageType
use ptpd_lwip.Types.Opt.Length

-- handleManagement and handleSignaling, which are not implemented.
abbrev pub handle_management : Bool → System → System
handle_management from_self s = s

abbrev pub handle_signaling : Bool → System → System
handle_signaling from_self s = s

-- The `switch` on the type of the message, which came in at `t`.
unfoldable pub handle_by : Port → ℕ → TimeInternal → Bool → System → System
handle_by p type t from_self s =
    if type == MessageType.announce
    then handle_announce p from_self s
    else if type == MessageType.sync
    then handle_sync p t from_self s
    else if type == MessageType.follow_up
    then handle_follow_up p from_self s
    else if type == MessageType.delay_req
    then handle_delay_req p t s
    else if type == MessageType.pdelay_req
    then handle_pdelay_req p t from_self s
    else if type == MessageType.delay_resp
    then handle_delay_resp p s
    else if type == MessageType.pdelay_resp
    then handle_pdelay_resp p t from_self s
    else if type == MessageType.pdelay_resp_follow_up
    then handle_pdelay_resp_follow_up p s
    else if type == MessageType.management
    then handle_management from_self s
    else if type == MessageType.signaling
    then handle_signaling from_self s
    else s

-- isFromSelf
abbrev pub is_from_self : PtpClock → Bool
is_from_self c = is_same_port_identity c.port_ds.port_identity c.msg_tmp_header.source_port_identity

-- The time of reception without the latency, for a message of another port.
abbrev pub without_latency : PtpClock → TimeInternal → TimeInternal
without_latency c t =
    if not (is_from_self c) && ltb_ℤ (pos 0) t.seconds then sub_time t c.inbound_latency else t

abbrev pub unpack_header : PtpClock → PtpClock
unpack_header c = record c { msg_tmp_header = msg_unpack_header c.msg_ibuf }

-- A message for this version and domain.
abbrev pub is_ours : PtpClock → Bool
is_ours c =
    (c.msg_tmp_header.version_ptp == c.port_ds.version_number)
    && (c.msg_tmp_header.domain_number == c.default_ds.domain_number)

-- The part of `handle` from the unpacking of the header on.
dispatch : Port → TimeInternal → System → System
dispatch p t before =
    let s = on_clock unpack_header before in
    if is_ours s.clock
    then handle_by p s.clock.msg_tmp_header.message_type (without_latency s.clock t)
        (is_from_self s.clock) s
    else s

-- The part from `messageActivity = true` on.
examine : Port → TimeInternal → System → System
examine p t before =
    let s = on_clock (λ c. record c { message_activity = true }) before in
    if is_short Length.header s then to_state p faulty s else dispatch p t s

-- What `netRecv` leaves in the clock.
abbrev pub receive : Received → System
receive r = on_clock (λ c. record c { msg_ibuf = r.buf; msg_ibuf_length = pos r.length }) r.system

-- A message on the general socket, if there is one. The length is never negative.
receive_general : Port → TimeInternal → System → System
receive_general p t s =
    let r = net_recv_general p s.clock.msg_ibuf t s in
    if r.length == 0 then receive r else examine p r.at (receive r)

-- handle
unfoldable pub handle : Port → System → System
unfolding dispatch examine receive_general
handle p s =
    let r = net_recv_event p s.clock.msg_ibuf zero_time s in
    if r.length == 0 then receive_general p r.at (receive r) else examine p r.at (receive r)

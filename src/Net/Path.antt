-- ===== src/Net/Path.antt =====
-- The sockets of src/net.c: `netInit`, `netShutdown` and the functions under them. What lwIP does in
-- a call is the port's; the calls are recorded.
pub mod Frame
pub mod Guard
use ptpd_lwip.Prelude.{none, some}
use ptpd_lwip.Prelude.{Bool, if◌then◌else◌, ℕ, ◌==◌, true}
use ptpd_lwip.Types.System.{
  System, Port, log, sys_mbox_new, igmp_joingroup, lock_tcpip_core, sys_mbox_free, udp_new,
  unlock_tcpip_core, igmp_leavegroup, udp_bind, udp_remove, udp_recv, udp_disconnect, mcast_ip4,
}
use ptpd_lwip.Types.Network.{
  NetPath, PacketHandler, Channel, event_channel, general_channel, inbox, outbox,
}
use ptpd_lwip.Types.Opt.{
  ptp_event_port, ptp_general_port, default_ptp_domain_address, peer_ptp_domain_address,
}

abbrev pub handler_of : Channel → NetPath → PacketHandler
handler_of event_channel path = path.event_handler
handler_of general_channel path = path.general_handler

abbrev pub with_handler : Channel → PacketHandler → NetPath → NetPath
with_handler event_channel h path = record path { event_handler = h }
with_handler general_channel h path = record path { general_handler = h }

abbrev pub set_handler : Channel → PacketHandler → System → System
set_handler ch h s = record s { net_path = with_handler ch h s.net_path }

-- `udp_new` and what follows it in `netHandlerInit`.
bind_handler : Port → Channel → ℕ → ℕ → System → System
bind_handler p ch default_addr port s =
    let created = log udp_new s in
    let stored =
      set_handler ch (record (handler_of ch s.net_path) { pcb = p.new_pcb s.calls }) created in
    elim (p.new_pcb s.calls) [
      | none ↦ stored
      | some pcb ↦
          log (udp_bind pcb port) (log (udp_recv pcb) (log (mcast_ip4 pcb default_addr) stored))
    ]

-- netHandlerInit
net_handler_init : Port → Channel → ℕ → ℕ → System → System
net_handler_init p ch default_addr port s =
    let s1 = log (sys_mbox_new ch inbox) s in
    let s2 = log (sys_mbox_new ch outbox) s1 in
    bind_handler p ch default_addr port (
      set_handler ch
        (record (handler_of ch s.net_path) {
          inbox = p.mailbox_valid s1.calls;
          outbox = p.mailbox_valid s2.calls;
        })
        s2)

-- The UDP interface of a handler is closed.
close_pcb : Channel → System → System
close_pcb ch s = elim (handler_of ch s.net_path).pcb [
  | none ↦ s
  | some pcb ↦
      set_handler ch (record (handler_of ch s.net_path) { pcb = none })
        (log (udp_remove pcb) (log (udp_disconnect pcb) s))
]

-- A valid mailbox is deleted.
free_inbox : Port → Channel → System → System
free_inbox p ch s =
    let freed = log (sys_mbox_free ch inbox) s in
    if (handler_of ch s.net_path).inbox
    then set_handler ch (record (handler_of ch s.net_path) { inbox = p.mailbox_valid freed.calls })
        freed
    else s

free_outbox : Port → Channel → System → System
free_outbox p ch s =
    let freed = log (sys_mbox_free ch outbox) s in
    if (handler_of ch s.net_path).outbox
    then set_handler ch (record (handler_of ch s.net_path) { outbox = p.mailbox_valid freed.calls })
        freed
    else s

-- netHandlerShutdown
net_handler_shutdown : Port → Channel → System → System
net_handler_shutdown p ch s = free_outbox p ch (free_inbox p ch (close_pcb ch s))

-- The two multicast groups are joined.
join_groups : System → System
join_groups s =
    record (log (igmp_joingroup peer_ptp_domain_address)
      (log (igmp_joingroup default_ptp_domain_address) s)) {
        net_path = record (s.net_path) {
          multicast_addr = default_ptp_domain_address;
          peer_multicast_addr = peer_ptp_domain_address;
        };
      }

-- netInit, which returns true whatever lwIP says.
unfoldable pub net_init : Port → System → Bool × System
unfolding net_handler_init bind_handler join_groups
net_init p s =
    let s1 = join_groups (log lock_tcpip_core s) in
    let s2 = net_handler_init p event_channel default_ptp_domain_address ptp_event_port s1 in
    let s3 = net_handler_init p general_channel default_ptp_domain_address ptp_general_port s2 in
    (true, log unlock_tcpip_core s3)

-- The groups are left that were joined. The interface is always the default one, and not part of the
-- call.
leave_group : System → System
leave_group s =
    if s.net_path.multicast_addr == 0
    then s
    else record (log (igmp_leavegroup s.net_path.multicast_addr) s) {
      net_path = record (s.net_path) { multicast_addr = 0 };
    }

leave_peer_group : System → System
leave_peer_group s =
    if s.net_path.peer_multicast_addr == 0
    then s
    else record (log (igmp_leavegroup s.net_path.peer_multicast_addr) s) {
      net_path = record (s.net_path) { peer_multicast_addr = 0 };
    }

-- netShutdown
unfoldable pub net_shutdown : Port → System → System
unfolding net_handler_shutdown close_pcb free_inbox free_outbox leave_group leave_peer_group
net_shutdown p s =
    let s1 = leave_peer_group (leave_group (log lock_tcpip_core s)) in
    let s2 = net_handler_shutdown p general_channel (net_handler_shutdown p event_channel s1) in
    log unlock_tcpip_core (record s2 {
      net_path = record (s2.net_path) { multicast_addr = 0; peer_multicast_addr = 0 };
    })

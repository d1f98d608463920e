-- ===== src/Types/Network.antt =====
-- The network path of src/def/datatypes_private.h, and the packet buffers and mailboxes of lwIP that
-- it leads to. The ring buffers of a handler are those of Net/Ring.
use ptpd_lwip.Prelude.{ℕ, Bool, List, Option}

-- The two sockets, and the two multicast addresses.
pub data Channel : Type 0 where
  event_channel general_channel : Channel

pub data Address : Type 0 where
  multicast_addr peer_multicast_addr : Address

-- The two mailboxes of a handler.
pub data Mailbox : Type 0 where
  inbox outbox : Mailbox

-- A received chain of `struct pbuf`: the fields of the first, and the payload of each, of `len`
-- octets.
pub record Pbuf : Type 0 where
  pub tot_len : ℕ  -- u16_t
  pub tv_sec : ℕ  -- u32_t
  pub tv_nsec : ℕ  -- u32_t
  pub payloads : List (List ℕ)

-- packetHandler_t: the control block, if there is one, and whether the mailboxes are valid.
pub record PacketHandler : Type 0 where
  pub pcb : Option ℕ
  pub inbox : Bool
  pub outbox : Bool

-- netPath_t
pub record NetPath : Type 0 where
  pub multicast_addr : ℕ
  pub peer_multicast_addr : ℕ
  pub event_handler : PacketHandler
  pub general_handler : PacketHandler

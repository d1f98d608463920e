-- ===== src/Types/System.antt =====
-- The clock with its surroundings: what the stack calls of the port's functions, which
-- include/lwip-ptp.h declares and the port implements, and of the network.
use ptpd_lwip.Types.Opt.{Timer}
use ptpd_lwip.Prelude.Int.{ℤ}
use ptpd_lwip.Types.Time.{Timestamp, TimeInternal}
use ptpd_lwip.Types.Clock.{PtpClock, Buffer}
use ptpd_lwip.Prelude.{ℕ, ◌∷◌, List, Bool, Option, ◌≡◌, true, false}
use ptpd_lwip.Types.Network.{NetPath, Pbuf}
pub use ptpd_lwip.Types.Network.{
  Channel, Address, event_channel, general_channel, multicast_addr, peer_multicast_addr, Mailbox,
  inbox, outbox,
}

-- What lwIP answers while a packet is sent: whether the packet buffer was allocated and filled,
-- the mailbox and `tcpip_callback` took it, and the timestamp of its transmission.
pub record SendAnswer : Type 0 where
  pub allocated : Bool
  pub taken : Bool
  pub posted : Bool
  pub called_back : Bool
  pub tv_sec : ℕ  -- u32_t
  pub tv_nsec : ℕ  -- u32_t

-- A call that the stack makes, with its arguments.
pub data Call : Type 0 where
  lwip_ptp_get_time : Call
  lwip_ptp_set_time : ℕ → ℕ → Call  -- the low word of the seconds, and the nanoseconds
  lwip_ptp_update_fine : ℤ → Call
  lwip_ptp_init_timers : Call
  lwip_ptp_start_timer : Timer → ℕ → Call
  lwip_ptp_stop_timer : Timer → Call
  lwip_ptp_check_timer : Timer → Call
  rand : Call
  net_empty_event_q : Call
  net_post : Channel → Address → Buffer → ℕ → Call  -- a packet of that length goes to the mailbox
  lock_tcpip_core unlock_tcpip_core : Call
  igmp_joingroup igmp_leavegroup : ℕ → Call  -- the address
  sys_mbox_new sys_mbox_free : Channel → Mailbox → Call
  udp_new : Call
  mcast_ip4 : ℕ → ℕ → Call  -- the address that a control block sends to
  udp_recv udp_disconnect udp_remove : ℕ → Call  -- the control block
  udp_bind : ℕ → ℕ → Call  -- the control block, and the port
  sys_arch_mbox_tryfetch : Channel → Call  -- on its inbox
  pbuf_free : Call
  sys_arch_mbox_fetch sys_mbox_trypost : Call  -- on `ptpAlert`
  sys_sem_signal : Call  -- on `ptpTxNotify`

-- The clock, its network path and the calls made so far, the latest first.
pub record System : Type 0 where
  pub clock : PtpClock
  pub net_path : NetPath
  pub calls : List Call

-- What the calls answer, given all calls made before.
pub record Port : Type 0 where
  pub time_now : List Call → Timestamp
  pub expired : List Call → Timer → Bool
  pub random : List Call → ℕ
  pub sending : List Call → SendAnswer
  pub arrived : List Call → Channel → Option Pbuf  -- the packet that the fetched message leads to
  pub overrun : List Call → Buffer  -- what a read outside the payload leaves in the buffer
  pub new_pcb : List Call → Option ℕ
  pub mailbox_valid : List Call → Bool  -- after `sys_mbox_new` or `sys_mbox_free`
  pub uninitialised : List Call → Timestamp  -- what a local variable holds before a store
  pub uninitialised_time : List Call → TimeInternal

abbrev pub log : Call → System → System
log c s = record s { calls = c ∷ s.calls }

abbrev pub on_clock : (PtpClock → PtpClock) → System → System
on_clock f s = record s { clock = f s.clock }

-- The calls that change which timers run.
abbrev pub is_timer_call : Call → Bool
is_timer_call lwip_ptp_init_timers = true
is_timer_call (lwip_ptp_start_timer t ms) = true
is_timer_call (lwip_ptp_stop_timer t) = true
is_timer_call _ = false

-- The second history is the first with calls that are not about timers.
pub data Extends (before : List Call) : List Call → Type 0 where
  same_calls : Extends before before
  one_more :
      {calls : List Call} (call : Call)
      → is_timer_call call ≡ false
      → Extends before calls
      → Extends before (call ∷ calls)

-- ===== src/Net.antt =====
-- src/net.c. Here are `netSend` and the four functions over it; the ring of packets that it posts
-- through is in Ring.
pub mod Path
mod Examples
pub mod Receive
pub mod Ring
use ptpd_lwip.Prelude.Int.{pos}
use ptpd_lwip.Prelude.Word.{s32}
use ptpd_lwip.Types.Time.{TimeInternal, zero_time, time}
use ptpd_lwip.Types.Clock.{Buffer}
use ptpd_lwip.Types.System.{
  Port, System, Address, Channel, multicast_addr, peer_multicast_addr, log, general_channel,
  event_channel, net_post,
}
use ptpd_lwip.Prelude.{ℕ, Bool, true, false, not, bit_and, ◌==◌, ◌^◌, ◌-◌, if◌then◌else◌, ◌&&◌}

-- What `netSend` returns, what it leaves in `*time`, and the system.
pub record Sent : Type 0 where
  pub result : ℕ
  pub at : TimeInternal
  pub system : System

-- netSend. `timed` tells whether `time` is a pointer to `before` or NULL.
unfoldable pub net_send :
    Port → Buffer → ℕ → Bool → TimeInternal → Address → Channel → System → Sent
net_send p buf length timed before addr handler s =
    let a = p.sending s.calls in
    let out = log (net_post handler addr buf length) s in
    let stamped = not (bit_and a.tv_sec a.tv_nsec == 2 ^ 32 - 1) in
    let tx = time (s32 (pos a.tv_sec)) (s32 (pos a.tv_nsec)) in
    if not (a.allocated && a.taken && a.posted)
    then record { result = 0; at = before; system = s }
    else if not a.called_back
    then record { result = 0; at = before; system = out }
    else if not timed
    then record { result = length; at = before; system = out }
    else if stamped
    then record { result = length; at = tx; system = out }
    else record { result = 0; at = before; system = out }

unfoldable pub net_send_event : Port → Buffer → ℕ → TimeInternal → System → Sent
unfolding net_send
net_send_event p buf length before s =
    net_send p buf length true before multicast_addr event_channel s

unfoldable pub net_send_general : Port → Buffer → ℕ → System → Sent
unfolding net_send
net_send_general p buf length s =
    net_send p buf length false zero_time multicast_addr general_channel s

unfoldable pub net_send_peer_event : Port → Buffer → ℕ → TimeInternal → System → Sent
unfolding net_send
net_send_peer_event p buf length before s =
    net_send p buf length true before peer_multicast_addr event_channel s

unfoldable pub net_send_peer_general : Port → Buffer → ℕ → System → Sent
unfolding net_send
net_send_peer_general p buf length s =
    net_send p buf length false zero_time peer_multicast_addr general_channel s

-- ===== src/Net/Receive.antt =====
-- `netRecv` of src/net.c and the two functions over it. The mailbox gives the packet that the port
-- says has arrived.
pub mod Copy
pub mod Outcome
use ptpd_lwip.Types.System.{Port, System, log, sys_arch_mbox_tryfetch, pbuf_free}
use ptpd_lwip.Prelude.{
  ℕ, List, Option, if◌then◌else◌, ltb, some, ◌==◌, length, suc, ◌||◌, none, ◌∷◌, ◌+◌, get_elem?,
  zero, [],
}
use ptpd_lwip.Prelude.Int.{pos}
use ptpd_lwip.Prelude.Word.{s32}
use ptpd_lwip.Types.Time.{TimeInternal, time}
use ptpd_lwip.Types.Clock.{Buffer}
use ptpd_lwip.Types.Network.{Pbuf, Channel, general_channel, event_channel}
use ptpd_lwip.Types.Opt.Length

-- `buf[i] = byte`.
abbrev pub store : ℕ → ℕ → Buffer → Buffer
store i byte buf = λ k. if k == i then byte else buf k

-- `pcopy` and `j` after a byte: the next packet buffer when this one is at its end.
abbrev pub advance : List ℕ → List (List ℕ) → ℕ → ℕ × List (List ℕ)
advance payload next j = if j == length payload then (0, next) else (j, payload ∷ next)

-- The copy loop with the number of bytes that are left, from `i` on; `none` is a read outside the
-- payload, or through a null pointer.
unfoldable pub copy_chain : ℕ → ℕ → ℕ → List (List ℕ) → Buffer → Option Buffer
copy_chain zero i j chain buf = some buf
copy_chain (suc left) i j [] buf = none
copy_chain (suc left) i j (payload ∷ next) buf =
    let (j', chain) = advance payload next (j + 1) in
    elim (get_elem? payload j) [
      | none ↦ none
      | some byte ↦ copy_chain left (i + 1) j' chain (store i byte buf)
    ]

-- What `netRecv` returns, what it leaves in `buf` and in `*time`, and the system.
pub record Received : Type 0 where
  pub length : ℕ
  pub buf : Buffer
  pub at : TimeInternal
  pub system : System

-- The packet is copied, with its timestamp.
accept : Port → Buffer → Pbuf → System → Received
accept p buf packet s = record {
  length = packet.tot_len;
  buf = elim (copy_chain packet.tot_len 0 0 packet.payloads buf) [
    | some copied ↦ copied
    | none ↦ p.overrun s.calls
  ];
  at = time (s32 (pos packet.tv_sec)) (s32 (pos packet.tv_nsec));
  system = log pbuf_free s;
}

-- A packet of the mailbox.
take_packet : Port → Buffer → TimeInternal → Pbuf → System → Received
take_packet p buf before packet s =
    if ltb Length.packet packet.tot_len || (packet.tot_len == 0)
    then record { length = 0; buf = buf; at = before; system = log pbuf_free s }
    else accept p buf packet s

-- netRecv
unfoldable pub net_recv : Port → Buffer → TimeInternal → Channel → System → Received
unfolding accept take_packet copy_chain
net_recv p buf before handler s =
    let fetched = log (sys_arch_mbox_tryfetch handler) s in
    elim (p.arrived s.calls handler) [
      | none ↦ record { length = 0; buf = buf; at = before; system = fetched }
      | some packet ↦ take_packet p buf before packet fetched
    ]

unfoldable pub net_recv_event : Port → Buffer → TimeInternal → System → Received
unfolding net_recv
net_recv_event p buf before s = net_recv p buf before event_channel s

unfoldable pub net_recv_general : Port → Buffer → TimeInternal → System → Received
unfolding net_recv
net_recv_general p buf before s = net_recv p buf before general_channel s

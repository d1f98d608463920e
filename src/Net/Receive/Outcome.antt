-- ===== src/Net/Receive/Outcome.antt =====
-- What `netRecv` of src/net.c makes of a packet.
use ptpd_lwip.Types.Time.{TimeInternal}
use ptpd_lwip.Types.Clock.{Buffer}
use ptpd_lwip.Prelude.{
  ℕ, List, if◌then◌else◌, ◌≡◌, ltb, length, get_or, some, Bool-cases, ◌||◌, ◌==◌, none, refl, inl,
  arith, inr, Option, ◌⊎◌,
}
use ptpd_lwip.Types.System.{Port, System, log, pbuf_free, sys_arch_mbox_tryfetch}
use ptpd_lwip.Types.Network.{Pbuf, Channel}
use ptpd_lwip.Net.Receive.{net_recv, take_packet, accept, copy_chain, Received}
use ptpd_lwip.Net.Receive.Copy.{concat, AreFilled, copy_chain_lem}
use ptpd_lwip.Types.Opt.Length

-- The length that is returned: 0 for a packet that is too long.
abbrev pub accepted : ℕ → ℕ
accepted tot_len = if ltb Length.packet tot_len then 0 else tot_len

-- The octets of the chain up to `length`, in front of what `buf` had.
abbrev pub Holds : Buffer → ℕ → List (List ℕ) → Buffer → Type 0
Holds copied length chain buf =
    (k : ℕ) → copied k ≡ (if ltb k length then get_or (concat chain) k 0 else buf k)

copy_whole :
    (n : ℕ) (chain : List (List ℕ)) (buf : Buffer)
    → n ≡ length (concat chain)
    → AreFilled chain
    → (copied : Buffer) × (copy_chain n 0 0 chain buf ≡ some copied) × Holds copied n chain buf
copy_whole n chain buf whole filled = rw whole (copy_chain_lem chain buf filled)

accept-Holds :
    (p : Port) (buf : Buffer) (packet : Pbuf) (s : System)
    → packet.tot_len ≡ length (concat packet.payloads)
    → AreFilled packet.payloads
    → Holds (accept p buf packet s).buf packet.tot_len packet.payloads buf
unfolding accept
accept-Holds p buf packet s whole filled k =
    let (copied, runs, holds) = copy_whole packet.tot_len packet.payloads buf whole filled in
    rw (runs, accept) (holds k)

-- What `netRecv` has done with a packet.
pub record Handles (buf : Buffer) (packet : Pbuf) (s : System) (r : Received) : Type 0 where
  pub length : r.length ≡ accepted packet.tot_len
  pub holds : Holds r.buf r.length packet.payloads buf
  pub freed : r.system ≡ log pbuf_free s

take_packet-Handles :
    (p : Port) (buf : Buffer) (before : TimeInternal) (packet : Pbuf) (s : System)
    → packet.tot_len ≡ length (concat packet.payloads)
    → AreFilled packet.payloads
    → Handles buf packet s (take_packet p buf before packet s)
unfolding take_packet accept
take_packet-Handles p buf before packet s whole filled =
    elim (Bool-cases (ltb Length.packet packet.tot_len || (packet.tot_len == 0))) [
      | inl refused ↦
          rw (refused, take_packet)
            (record { length = ground arith; holds = λ k. ground arith; freed = refl })
      | inr fits ↦
          rw (fits, take_packet)
            (record {
              length = ground arith;
              holds = accept-Holds p buf packet s whole filled;
              freed = refl;
            })
    ]

-- `netRecv` on a packet whose length is that of its chain, with no packet buffer of the chain
-- empty: it returns the length, or 0 for a packet that is longer than the buffer; the buffer then
-- starts with that many octets of the packet and is otherwise as before, and the packet is freed
-- once.
pub net_recv-Handles :
    (p : Port) (buf : Buffer) (before : TimeInternal) (handler : Channel) (s : System)
    (packet : Pbuf)
    → p.arrived s.calls handler ≡ some packet
    → packet.tot_len ≡ length (concat packet.payloads)
    → AreFilled packet.payloads
    → Handles buf packet (log (sys_arch_mbox_tryfetch handler) s) (net_recv p buf before handler s)
unfolding net_recv
net_recv-Handles p buf before handler s packet e whole filled =
    rw (e, net_recv) (take_packet-Handles p buf before packet _ whole filled)

take_packet-system :
    (p : Port) (buf : Buffer) (before : TimeInternal) (packet : Pbuf) (s : System)
    → (take_packet p buf before packet s).system ≡ log pbuf_free s
unfolding take_packet accept
take_packet-system p buf before packet s =
    elim (Bool-cases (ltb Length.packet packet.tot_len || (packet.tot_len == 0))) [
      | inl refused ↦ rw (refused, take_packet) refl
      | inr fits ↦ rw (fits, take_packet) refl
    ]

Option-cases : (o : Option Pbuf) → (o ≡ none) ⊎ ((packet : Pbuf) × (o ≡ some packet))
Option-cases none = inl refl
Option-cases (some packet) = inr (packet, refl)

-- The calls that `netRecv` makes; it leaves the clock alone.
pub net_recv-system :
    (p : Port) (buf : Buffer) (before : TimeInternal) (handler : Channel) (s : System)
    → ((net_recv p buf before handler s).system ≡ log (sys_arch_mbox_tryfetch handler) s)
      ⊎ ((net_recv p buf before handler s).system
          ≡ log pbuf_free (log (sys_arch_mbox_tryfetch handler) s))
unfolding net_recv
net_recv-system p buf before handler s = elim (Option-cases (p.arrived s.calls handler)) [
  | inl nothing ↦ inl (rw (nothing, net_recv) refl)
  | inr (packet, e) ↦ inr (rw (e, net_recv) (take_packet-system p buf before packet _))
]

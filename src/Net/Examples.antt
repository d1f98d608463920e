-- ===== src/Net/Examples.antt =====
-- Tests of src/net.c, and instances of its theorems.
use ptpd_lwip.Types.Time.{zero_time}
use ptpd_lwip.Types.Clock.{Buffer}
use ptpd_lwip.Net.Receive.{net_recv, copy_chain}
use ptpd_lwip.Net.Receive.Outcome.{Handles, net_recv-Handles}
use ptpd_lwip.Net.Path.{net_init, net_shutdown}
use ptpd_lwip.Net.Path.Guard.{IsOrderly, is_locked, is_guarded, bound, removed, joined, left}
use ptpd_lwip.Net.Path.Guard.Restart.{restart-IsOrderly}
use ptpd_lwip.Net.Ring.{
  Mbox, Ring, Packet, push, fetch, load, net_empty_event_q, net_send_post, net_send_callback, pop,
  net_recv_callback,
}
use ptpd_lwip.Net.Ring.Fifo.{enqueue, IsValid, contents}
use ptpd_lwip.Net.Ring.Run.{Op, put, get, run_ring, run_queue, run_refines}
use ptpd_lwip.Net.Ring.Late.{load_late}
use ptpd_lwip.Net.Ring.Outbox.{Step, post, callback, run_outbox, outbox_conserves}
use ptpd_lwip.Net.Ring.Drain.{net_recv_callback_lem, told, packet_of, net_empty_event_q_total}
use ptpd_lwip.Types.Network.{Pbuf}
use ptpd_lwip.Types.Opt.{pbuf_queue_size, default_ptp_domain_address, peer_ptp_domain_address}
use ptpd_lwip.Prelude.{
  none, some, arith, Option, ◌∷◌, ℕ, List, ◌≡◌, [], if◌then◌else◌, ◌++◌, refl, false, ◌≤◌, ltb,
  length, ◌<◌,
}
use ptpd_lwip.Types.Sample.{sample_surroundings, sample_system}
use ptpd_lwip.Types.System.{
  event_channel, udp_bind, igmp_joingroup, lock_tcpip_core, unlock_tcpip_core, Port, log, System,
  sys_arch_mbox_tryfetch,
}

-- Five octets in two packet buffers.
abbrev two_pbufs : Pbuf
two_pbufs = record {
  tot_len = 5;
  tv_sec = 1000;
  tv_nsec = 7;
  payloads = (1 ∷ 2 ∷ 3 ∷ []) ∷ (4 ∷ 5 ∷ []) ∷ [];
}

abbrev arriving : Port
arriving = record sample_surroundings { arrived = λ calls handler. some two_pbufs }

abbrev blank : Buffer
blank = λ k. 9

net_recv-Handles_example :
    Handles blank two_pbufs
      (log (sys_arch_mbox_tryfetch event_channel) sample_system)
      (net_recv arriving blank zero_time event_channel sample_system)
net_recv-Handles_example =
    net_recv-Handles arriving blank zero_time event_channel sample_system two_pbufs refl refl
      (omega arith)

-- The sample clock with the calls that have opened what its path holds.
abbrev open_system : System
open_system = record sample_system {
  calls =
      unlock_tcpip_core
      ∷ udp_bind 4 320
      ∷ udp_bind 3 319
      ∷ igmp_joingroup 0xe000006b
      ∷ igmp_joingroup 0xe0000181
      ∷ lock_tcpip_core
      ∷ [];
}

open-IsOrderly : IsOrderly open_system
unfolding is_guarded bound removed joined left
open-IsOrderly = record {
  guarded = refl;
  sockets_held = λ n. ground arith;
  groups_held = λ a. ground arith;
}

restart-IsOrderly_example :
    IsOrderly (net_init sample_surroundings (net_shutdown sample_surroundings open_system)).1
    × (is_locked
          (net_init sample_surroundings (net_shutdown sample_surroundings open_system)).1.calls
        ≡ false)
    × ((net_init sample_surroundings
          (net_shutdown sample_surroundings open_system)).1.net_path.multicast_addr
        ≡ default_ptp_domain_address)
    × ((net_init sample_surroundings
          (net_shutdown sample_surroundings open_system)).1.net_path.peer_multicast_addr
        ≡ peer_ptp_domain_address)
restart-IsOrderly_example = restart-IsOrderly sample_surroundings open_system open-IsOrderly

-- A mailbox as a list.
abbrev try_put : List ℕ → ℕ → Option (List ℕ)
try_put m x = if ltb (length m) pbuf_queue_size then some (m ++ x ∷ []) else none

abbrev try_get : List ℕ → Option (ℕ × List ℕ)
try_get [] = none
try_get (x ∷ m) = some (x, m)

try_put-some :
    (m : List ℕ) (x : ℕ) (m' : List ℕ)
    → try_put m x ≡ some m'
    → (m' ≡ m ++ x ∷ []) × (length m < pbuf_queue_size)
try_put-some m x m' e = ground arith

try_put-none : (m : List ℕ) (x : ℕ) → try_put m x ≡ none → pbuf_queue_size ≤ length m
try_put-none m x e = ground arith

try_get-some : (m : List ℕ) (x : ℕ) (m' : List ℕ) → try_get m ≡ some (x, m') → m ≡ x ∷ m'
try_get-some [] x m' e = absurd (cc e)
try_get-some (y ∷ m) x m' e = ground arith

try_get-none : (m : List ℕ) → try_get m ≡ none → m ≡ []
try_get-none [] e = refl
try_get-none (y ∷ m) e = absurd (cc e)

abbrev list_mbox : Mbox
list_mbox = record {
  Carrier = List ℕ;
  held = λ m. m;
  trypost = try_put;
  tryfetch = try_get;
  trypost_some = try_put-some;
  trypost_none = try_put-none;
  tryfetch_some = try_get-some;
  tryfetch_none = try_get-none;
}

abbrev sample_packet : ℕ → Packet
sample_packet p = record { pbuf = p; dest_addr = 7 }

-- A full ring, and one with two packets.
abbrev full_ring : Ring (List ℕ)
full_ring = record {
  buf = sample_packet 10 ∷ sample_packet 11 ∷ sample_packet 12 ∷ sample_packet 13 ∷ [];
  head = 2;
  mbox = 2 ∷ 3 ∷ 0 ∷ 1 ∷ [];
}

full-IsValid : IsValid list_mbox full_ring
full-IsValid = record {
  start = 2;
  count = 4;
  size = refl;
  start_in = omega arith;
  count_in = omega arith;
  head_at = refl;
  window = refl;
}

abbrev some_ops : List Op
some_ops = put (sample_packet 20) ∷ get ∷ put (sample_packet 21) ∷ get ∷ get ∷ get ∷ get ∷ get ∷ []

run_refines_example :
    run_ring list_mbox full_ring some_ops ≡ run_queue (contents list_mbox full_ring) some_ops
run_refines_example = run_refines list_mbox some_ops full_ring full-IsValid

load_late_example :
    (fetch list_mbox full_ring ≡ some (2, record full_ring { mbox = 3 ∷ 0 ∷ 1 ∷ [] }))
    × (load list_mbox 2
          (push list_mbox (sample_packet 20) (record full_ring { mbox = 3 ∷ 0 ∷ 1 ∷ [] })).1
        ≡ sample_packet 20)
unfolding push
load_late_example =
    load_late list_mbox full_ring (sample_packet 20) 2 (3 ∷ 0 ∷ 1 ∷ []) full-IsValid refl refl

net_empty_event_q_total_example :
    (r : Ring (List ℕ)) × (net_empty_event_q list_mbox 5 full_ring ≡ some r)
    × (contents list_mbox r ≡ [])
    × IsValid list_mbox r
    × (r.buf ≡ full_ring.buf)
    × (r.head ≡ full_ring.head)
net_empty_event_q_total_example =
    net_empty_event_q_total list_mbox 5 full_ring full-IsValid (omega arith)

-- A full outbox takes no packet before the callback has sent one.
abbrev some_steps : List Step
some_steps = post 20 7 ∷ callback ∷ post 21 7 ∷ callback ∷ callback ∷ []

outbox_conserves_example :
    ((run_outbox list_mbox full_ring some_steps).gone
        ++ contents list_mbox (run_outbox list_mbox full_ring some_steps).ring
      ≡ contents list_mbox full_ring ++ (run_outbox list_mbox full_ring some_steps).accepted)
    × IsValid list_mbox (run_outbox list_mbox full_ring some_steps).ring
outbox_conserves_example = outbox_conserves list_mbox some_steps full_ring full-IsValid

outbox_run : (run_outbox list_mbox full_ring some_steps).accepted ≡ sample_packet 21 ∷ []
unfolding run_outbox net_send_post net_send_callback push pop
outbox_run = refl

-- The copy loop goes on to the second packet buffer.
copied : Option ℕ
unfolding copy_chain
copied = elim (copy_chain 5 0 0 two_pbufs.payloads blank) [ none ↦ none | some buf ↦ some (buf 3) ]

copied_run : copied ≡ some 4
unfolding copied
copied_run = refl

net_recv_callback_lem_example :
    ((net_recv_callback list_mbox 99 7 full_ring).0
      ≡ told 99 (enqueue (packet_of 99 7) (contents list_mbox full_ring)).0)
    × (contents list_mbox (net_recv_callback list_mbox 99 7 full_ring).1
        ≡ (enqueue (packet_of 99 7) (contents list_mbox full_ring)).1)
    × IsValid list_mbox (net_recv_callback list_mbox 99 7 full_ring).1
net_recv_callback_lem_example = net_recv_callback_lem list_mbox 99 7 full_ring full-IsValid

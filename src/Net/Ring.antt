-- ===== src/Net/Ring.antt =====
-- The ring of PBUF_QUEUE_SIZE packets behind a mailbox of src/net.c: the same code stands in
-- `netRecvCallback` for the inbox and in `netSend` for the outbox. The mailbox holds pointers into
-- the ring, which are indices here.
pub mod Fifo
pub mod Run
pub mod Late
pub mod Drain
pub mod Outbox
use ptpd_lwip.Prelude.{
  List, ℕ, Bool, Option, ◌≡◌, if◌then◌else◌, get_or, set, ◌+◌, some, ◌==◌, ◌++◌, ◌∷◌, [], length,
  ◌<◌, none, ◌≤◌, false, true, suc, zero,
}
use ptpd_lwip.Types.Opt.{pbuf_queue_size}

-- packet_t: a packet buffer and an address.
pub record Packet : Type 0 where
  pub pbuf : ℕ
  pub dest_addr : ℕ

-- The mailbox of lwIP: what it holds, the oldest first, and what is documented of the functions that
-- the code calls. It was made for PBUF_QUEUE_SIZE messages, and holds no more.
pub record Mbox : Type 1 where
  pub Carrier : Type 0
  pub held : Carrier → List ℕ
  pub trypost : Carrier → ℕ → Option Carrier
  pub tryfetch : Carrier → Option (ℕ × Carrier)
  pub trypost_some :
      (m : Carrier) (x : ℕ) (m' : Carrier)
      → trypost m x ≡ some m'
      → (held m' ≡ held m ++ x ∷ []) × (length (held m) < pbuf_queue_size)
  pub trypost_none : (m : Carrier) (x : ℕ) → trypost m x ≡ none → pbuf_queue_size ≤ length (held m)
  pub tryfetch_some :
      (m : Carrier) (x : ℕ) (m' : Carrier) → tryfetch m ≡ some (x, m') → held m ≡ x ∷ held m'
  pub tryfetch_none : (m : Carrier) → tryfetch m ≡ none → held m ≡ []

-- The inbox half, or the outbox half, of packetHandler_t.
pub record Ring (M : Type 0) : Type 0 where
  pub buf : List Packet
  pub head : ℕ
  pub mbox : M

abbrev pub null_packet : Packet
null_packet = record { pbuf = 0; dest_addr = 0 }

-- The next index.
abbrev pub next_head : ℕ → ℕ
next_head head = if head + 1 == pbuf_queue_size then 0 else head + 1

-- What is done beside it: `pbuf_free`, a post to `ptpAlert`, `tcpip_callback` and `udp_sendto`.
pub data Effect : Type 0 where
  freed : ℕ → Effect
  alerted asked : Effect
  sent : ℕ → ℕ → Effect

module _ (mb : Mbox) where
  open mb use {Carrier, trypost, tryfetch}

  -- A packet is written at the head and its pointer is posted; if the mailbox is full, what stood there
  -- is written back. The Boolean tells whether it was posted.
  unfoldable pub push : Packet → Ring Carrier → Bool × Ring Carrier
  push packet r =
      let old = get_or r.buf r.head null_packet in
      let written = set r.buf r.head packet in
      elim (trypost r.mbox r.head) [
        | none ↦ (false, record r { buf = set written r.head old })
        | some m ↦ (true, record { buf = written; head = next_head r.head; mbox = m })
      ]

  -- `sys_arch_mbox_tryfetch`, which gives a pointer, and `packet->pbuf` and `packet->destAddr` after it.
  unfoldable pub fetch : Ring Carrier → Option (ℕ × Ring Carrier)
  fetch r = elim (tryfetch r.mbox) [ none ↦ none | some (i, m) ↦ some (i, record r { mbox = m }) ]

  unfoldable pub load : ℕ → Ring Carrier → Packet
  load i r = get_or r.buf i null_packet

  -- The two together, with nothing in between.
  unfoldable pub pop : Ring Carrier → Option (Packet × Ring Carrier)
  unfolding fetch load
  pop r = elim (fetch r) [ none ↦ none | some (i, r') ↦ some (load i r', r') ]

  -- netRecvCallback: a packet that is not taken is freed; otherwise the thread of the stack is alerted.
  unfoldable pub net_recv_callback : ℕ → ℕ → Ring Carrier → List Effect × Ring Carrier
  unfolding push
  net_recv_callback p addr r =
      let (done, r') = push (record { pbuf = p; dest_addr = addr }) r in
      (if done then alerted ∷ [] else freed p ∷ [], r')

  -- The part of `netSend` that posts its packet buffer; the Boolean tells whether it goes on.
  unfoldable pub net_send_post : ℕ → ℕ → Ring Carrier → Bool × List Effect × Ring Carrier
  unfolding push
  net_send_post p addr r =
      let (done, r') = push (record { pbuf = p; dest_addr = addr }) r in
      (done, if done then asked ∷ [] else freed p ∷ [], r')

  -- netSendCallback, with a control block: it runs after a post only, and without one the code would
  -- follow the null pointer that `udp_new` has left.
  unfoldable pub net_send_callback : Ring Carrier → List Effect × Ring Carrier
  unfolding pop
  net_send_callback r = elim (pop r) [
    | none ↦ ([], r)
    | some (packet, r') ↦ (sent packet.pbuf packet.dest_addr ∷ [], r')
  ]

  -- netEmptyEventQ, with fuel; `none` means that the fuel ran out.
  unfoldable pub net_empty_event_q : ℕ → Ring Carrier → Option (Ring Carrier)
  unfolding fetch
  net_empty_event_q zero r = none
  net_empty_event_q (suc fuel) r = elim (fetch r) [
    | none ↦ some r
    | some (i, r') ↦ net_empty_event_q fuel r'
  ]

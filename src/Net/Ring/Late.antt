-- ===== src/Net/Ring/Late.antt =====
-- A packet that is put into the ring of src/net.c while the other thread is between fetching a pointer
-- and following it, as `netRecvCallback` may do to `netRecv`.
use ptpd_lwip.Prelude.{
  List, ℕ, ◌<◌, ◌≡◌, true, some, ◌≤◌, refl, get_or, length, if◌then◌else◌, ◌==◌, set, sym, inl,
  arith, false, inr, ◌∙◌, ◌≢◌, Bool-cases, ap, get_or-set_self, get_or-set_ne,
}
use mathlib.Core.Path.{subst}
use ptpd_lwip.Net.Ring.{Packet, Mbox, Ring, null_packet, push, fetch, load}
use ptpd_lwip.Net.Ring.Fifo.{IsValid, contents, after, length-contents, Option-cases}
use ptpd_lwip.Net.Ring.Run.{indices_tail}
use ptpd_lwip.Types.Opt.{pbuf_queue_size}

-- The head is at the fetched slot exactly when the ring was full.
overwritten :
    (buf : List Packet) (packet : Packet) (start n head size : ℕ)
    → 0 < n
    → n ≤ pbuf_queue_size
    → start < pbuf_queue_size
    → head ≡ after start n
    → length buf ≡ pbuf_queue_size
    → n ≡ size
    → get_or (set buf head packet) start null_packet
      ≡ (if size == pbuf_queue_size then packet else get_or buf start null_packet)
overwritten buf packet start n head size filled room inside at whole e =
    elim (Bool-cases (size == pbuf_queue_size)) [
      | inl full ↦ rw full (
          ap (λ i. get_or (set buf head packet) i null_packet) (same full)
          ∙ get_or-set_self buf head packet null_packet (omega arith))
      | inr free ↦
          rw free (get_or-set_ne buf head start packet null_packet (λ clash. apart free clash))
    ]
  where
    same : (size == pbuf_queue_size) ≡ true → start ≡ head
    same full = ground arith

    apart : (size == pbuf_queue_size) ≡ false → head ≢ start
    apart free clash = ground arith

module _ (mb : Mbox) where
  open mb use {Carrier, held, trypost, tryfetch, tryfetch_some}

  fetch_first :
      (r : Ring Carrier) (i : ℕ) (m : Carrier)
      → tryfetch r.mbox ≡ some (i, m)
      → fetch mb r ≡ some (i, record r { mbox = m })
  unfolding fetch
  fetch_first r i m e = rw (e, fetch) refl

  load_pushed :
      (r : Ring Carrier) (packet : Packet) (i : ℕ)
      → (push mb packet r).0 ≡ true
      → load mb i (push mb packet r).1 ≡ get_or (set r.buf r.head packet) i null_packet
  unfolding push load
  load_pushed r packet i posted = elim (Option-cases (trypost r.mbox r.head)) [
    | inl e ↦ absurd (ground (arith, posted, e))
    | inr (m, e) ↦ rw (e, push) refl
  ]

  -- On a valid ring, a packet is put in between the fetching of a pointer and the reading of the packet
  -- behind it. If fewer than PBUF_QUEUE_SIZE packets were waiting, the oldest of them is read. If
  -- the ring was full, the new packet is read in its place, and the oldest one is lost.
  pub load_late :
      (r : Ring Carrier) (packet : Packet) (i : ℕ) (m : Carrier)
      → IsValid mb r
      → tryfetch r.mbox ≡ some (i, m)
      → (push mb packet (record r { mbox = m })).0 ≡ true
      → (fetch mb r ≡ some (i, record r { mbox = m }))
        × (load mb i (push mb packet (record r { mbox = m })).1 ≡ (
            if length (contents mb r) == pbuf_queue_size
            then packet
            else load mb i (record r { mbox = m })))
  unfolding load
  load_late r packet i m v e posted =
      let holds = tryfetch_some r.mbox i m e in
      let (filled, first, rest) = indices_tail i (held m) v.start v.count (sym v.window ∙ holds) in
      (
        fetch_first r i m e,
        load_pushed (record r { mbox = m }) packet i posted
            ∙ subst
                (λ k. get_or (set r.buf r.head packet) k null_packet ≡ (
                  if length (contents mb r) == pbuf_queue_size
                  then packet
                  else get_or r.buf k null_packet))
                first
                (overwritten r.buf packet v.start v.count r.head (length (contents mb r)) filled
                  v.count_in v.start_in v.head_at v.size (sym (length-contents mb r v))),
      )

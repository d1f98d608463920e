-- ===== src/Net/Ring/Drain.antt =====
-- `netEmptyEventQ` and the callbacks of src/net.c on a ring.
use ptpd_lwip.Prelude.{
  ℕ, length, ◌≡◌, if◌then◌else◌, ◌<◌, none, some, suc, ◌∷◌, [], ap, refl, arith, inl, inr, ◌∙◌,
  zero, Bool, List,
}
use ptpd_lwip.Net.Ring.{
  Packet, Mbox, Ring, net_empty_event_q, net_recv_callback, Effect, freed, alerted,
}
use ptpd_lwip.Net.Ring.Fifo.{IsValid, contents, Option-cases, push-Pushed, enqueue, read_all}
use ptpd_lwip.Net.Ring.Run.{fetched-IsValid}

abbrev pub packet_of : ℕ → ℕ → Packet
packet_of p addr = record { pbuf = p; dest_addr = addr }

-- What is done beside it, by whether the packet was taken.
abbrev pub told : ℕ → Bool → List Effect
told p done = if done then alerted ∷ [] else freed p ∷ []

module _ (mb : Mbox) where
  open mb use {Carrier, held, tryfetch, tryfetch_some, tryfetch_none}

  empty_stops :
      (fuel : ℕ) (r : Ring Carrier)
      → tryfetch r.mbox ≡ none
      → net_empty_event_q mb (suc fuel) r ≡ some r
  unfolding net_empty_event_q
  empty_stops fuel r e = rw (e, net_empty_event_q) refl

  empty_goes_on :
      (fuel : ℕ) (r : Ring Carrier) (i : ℕ) (m : Carrier)
      → tryfetch r.mbox ≡ some (i, m)
      → net_empty_event_q mb (suc fuel) r ≡ net_empty_event_q mb fuel (record r { mbox = m })
  unfolding net_empty_event_q
  empty_goes_on fuel r i m e = rw (e, net_empty_event_q) refl

  -- On a valid ring the loop of `netEmptyEventQ` ends, after at most as many rounds as packets are
  -- waiting: then none is, and the ring is valid and its packets and its head are as before.
  pub net_empty_event_q_total :
      (fuel : ℕ) (r : Ring Carrier)
      → IsValid mb r
      → length (held r.mbox) < fuel
      → (r' : Ring Carrier) × (net_empty_event_q mb fuel r ≡ some r')
        × (contents mb r' ≡ [])
        × IsValid mb r'
        × (r'.buf ≡ r.buf)
        × (r'.head ≡ r.head)
  net_empty_event_q_total zero r v enough = absurd (omega arith)
  net_empty_event_q_total (suc fuel) r v enough = elim (Option-cases (tryfetch r.mbox)) [
    | inl e ↦ (r, empty_stops fuel r e, ap (read_all r.buf) (tryfetch_none r.mbox e), v, refl, refl)
    | inr ((i, m), e) ↦
        let holds = tryfetch_some r.mbox i m e in
        let fewer : length (held m) < fuel = omega (arith, ap length holds) in
        let (r', runs, none_left, valid, buf, head) =
          net_empty_event_q_total fuel (record r { mbox = m }) (fetched-IsValid mb r i m v holds)
            fewer in
        (r', empty_goes_on fuel r i m e ∙ runs, none_left, valid, buf, head)
  ]

  -- A packet that comes in on a valid ring is freed if PBUF_QUEUE_SIZE packets are waiting, with all as
  -- before; otherwise it is the last one waiting, and the thread of the stack is alerted.
  pub net_recv_callback_lem :
      (p addr : ℕ) (r : Ring Carrier)
      → IsValid mb r
      → ((net_recv_callback mb p addr r).0 ≡ told p (enqueue (packet_of p addr) (contents mb r)).0)
        × (contents mb (net_recv_callback mb p addr r).1
            ≡ (enqueue (packet_of p addr) (contents mb r)).1)
        × IsValid mb (net_recv_callback mb p addr r).1
  unfolding net_recv_callback
  net_recv_callback_lem p addr r v =
      let done = push-Pushed mb (packet_of p addr) r v in
      (ap (λ q. told p q.0) done.refines, ap (λ q. q.1) done.refines, done.valid)

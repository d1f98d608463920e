-- ===== src/Net/Ring/Outbox.antt =====
-- `netSend` and `netSendCallback` of src/net.c on an outbox, in any order.
use mathlib.Core.List.{append-nil, append_assoc}
use ptpd_lwip.Types.Opt.{pbuf_queue_size}
use ptpd_lwip.Prelude.{
  Bool, ℕ, List, ◌++◌, if◌then◌else◌, ◌∷◌, [], ◌≡◌, sym, inl, some, Bool-cases, none, ap, inr, ltb,
  ◌∙◌, refl, get_or, length,
}
use ptpd_lwip.Net.Ring.{
  Packet, Mbox, Ring, Effect, sent, net_send_post, net_send_callback, push, pop, null_packet,
}
use ptpd_lwip.Net.Ring.Fifo.{IsValid, contents, push-Pushed, enqueue, read_all, Option-cases}
use ptpd_lwip.Net.Ring.Run.{fetched-IsValid, pop_empty, pop_first}
use ptpd_lwip.Net.Ring.Drain.{packet_of}

-- `netSend` posts a packet buffer for an address, or lwIP runs the callback.
pub data Step : Type 0 where
  post : ℕ → ℕ → Step
  callback : Step

-- The packets that are sent.
abbrev pub sends : List Effect → List Packet
sends [] = []
sends (sent p addr ∷ effects) = packet_of p addr ∷ sends effects
sends (_ ∷ effects) = sends effects

-- The packet, if it is accepted.
abbrev pub taken : Bool → Packet → List Packet
taken done packet = if done then packet ∷ [] else []

-- What came of some steps: the packets that `netSend` went on with, those sent, and the ring.
pub record Outcome (M : Type 0) : Type 0 where
  pub accepted : List Packet
  pub gone : List Packet
  pub ring : Ring M

module _ (mb : Mbox) where
  open mb use {Carrier, tryfetch, tryfetch_some, tryfetch_none}

  unfoldable pub run_outbox : Ring Carrier → List Step → Outcome Carrier
  run_outbox r [] = record { accepted = []; gone = []; ring = r }
  run_outbox r (post p addr ∷ steps) =
      let (done, effects, r') = net_send_post mb p addr r in
      let rest = run_outbox r' steps in
      record {
        accepted = taken done (packet_of p addr) ++ rest.accepted;
        gone = sends effects ++ rest.gone;
        ring = rest.ring;
      }
  run_outbox r (callback ∷ steps) =
      let (effects, r') = net_send_callback mb r in
      let rest = run_outbox r' steps in
      record { accepted = rest.accepted; gone = sends effects ++ rest.gone; ring = rest.ring }

enqueue-taken :
    (packet : Packet) (queue : List Packet)
    → (enqueue packet queue).1 ≡ queue ++ taken (enqueue packet queue).0 packet
enqueue-taken packet queue = elim (Bool-cases (ltb (length queue) pbuf_queue_size)) [
  | inl room ↦ rw room refl
  | inr full ↦ rw full (sym (append-nil queue))
]

-- Nothing is sent where a packet buffer is posted.
sends-post :
    (mb : Mbox) (p addr : ℕ) (r : Ring mb.Carrier) → sends (net_send_post mb p addr r).1 ≡ []
unfolding net_send_post
sends-post mb p addr r = elim (Bool-cases (push mb (packet_of p addr) r).0) [
  | inl done ↦ rw done refl
  | inr full ↦ rw full refl
]

module _ (mb : Mbox) where
  open mb use {Carrier, tryfetch, tryfetch_some, tryfetch_none}

  posted-contents :
      (p addr : ℕ) (r : Ring Carrier)
      → IsValid mb r
      → contents mb (net_send_post mb p addr r).2
        ≡ contents mb r ++ taken (net_send_post mb p addr r).0 (packet_of p addr)
  unfolding net_send_post
  posted-contents p addr r v =
      let done = push-Pushed mb (packet_of p addr) r v in
      ap (λ q. q.1) done.refines
      ∙ enqueue-taken (packet_of p addr) (contents mb r)
      ∙ ap (λ q. contents mb r ++ taken q.0 (packet_of p addr)) (sym done.refines)

  posted-IsValid :
      (p addr : ℕ) (r : Ring Carrier) → IsValid mb r → IsValid mb (net_send_post mb p addr r).2
  unfolding net_send_post
  posted-IsValid p addr r v = (push-Pushed mb (packet_of p addr) r v).valid

  callback_idle : (r : Ring Carrier) → pop mb r ≡ none → net_send_callback mb r ≡ ([], r)
  unfolding net_send_callback
  callback_idle r e = rw (e, net_send_callback) refl

  callback_sends :
      (r r' : Ring Carrier) (packet : Packet)
      → pop mb r ≡ some (packet, r')
      → net_send_callback mb r ≡ (sent packet.pbuf packet.dest_addr ∷ [], r')
  unfolding net_send_callback
  callback_sends r r' packet e = rw (e, net_send_callback) refl

  -- What a callback sends is the oldest packet that waits.
  callback-contents :
      (r : Ring Carrier)
      → IsValid mb r
      → (sends (net_send_callback mb r).0 ++ contents mb (net_send_callback mb r).1 ≡ contents mb r)
        × IsValid mb (net_send_callback mb r).1
  callback-contents r v = elim (Option-cases (tryfetch r.mbox)) [
    | inl e ↦ rw (callback_idle r (pop_empty mb r e)) (refl, v)
    | inr ((x, m), e) ↦
        let holds = tryfetch_some r.mbox x m e in
        rw
          (callback_sends r (record r { mbox = m }) (get_or r.buf x null_packet)
            (pop_first mb r x m e))
          (sym (ap (read_all r.buf) holds), fetched-IsValid mb r x m v holds)
  ]

  -- From a valid outbox on, in whatever order `netSend` posts packets and lwIP runs the callback, with
  -- nothing between the fetch of a callback and its sending, nor between the lines of a post: the
  -- packets sent, and after them those that wait, are those that waited before, and after them
  -- those that `netSend` went on with. So each of these is sent once, in order, or waits.
  pub outbox_conserves :
      (steps : List Step) (r : Ring Carrier)
      → IsValid mb r
      → ((run_outbox mb r steps).gone ++ contents mb (run_outbox mb r steps).ring
          ≡ contents mb r ++ (run_outbox mb r steps).accepted)
        × IsValid mb (run_outbox mb r steps).ring
  unfolding run_outbox
  outbox_conserves [] r v = (sym (append-nil (contents mb r)), v)
  outbox_conserves (post p addr ∷ steps) r v =
      let r' = (net_send_post mb p addr r).2 in
      let (kept, valid) = outbox_conserves steps r' (posted-IsValid p addr r v) in
      (
        ap
              (λ now.
                (now ++ (run_outbox mb r' steps).gone) ++ contents mb (run_outbox mb r' steps).ring)
              (sends-post mb p addr r)
            ∙ kept
            ∙ ap (λ q. q ++ (run_outbox mb r' steps).accepted) (posted-contents p addr r v)
            ∙ append_assoc (contents mb r) (taken (net_send_post mb p addr r).0 (packet_of p addr))
                (run_outbox mb r' steps).accepted,
        valid,
      )
  outbox_conserves (callback ∷ steps) r v =
      let r' = (net_send_callback mb r).1 in
      let now = sends (net_send_callback mb r).0 in
      let (same, still) = callback-contents r v in
      let (kept, valid) = outbox_conserves steps r' still in
      (
        append_assoc now (run_outbox mb r' steps).gone (contents mb (run_outbox mb r' steps).ring)
            ∙ ap (λ rest. now ++ rest) kept
            ∙ sym (append_assoc now (contents mb r') (run_outbox mb r' steps).accepted)
            ∙ ap (λ q. q ++ (run_outbox mb r' steps).accepted) same,
        valid,
      )

-- ===== src/Net/Ring/Run.antt =====
-- Any sequence of packets put into the ring of src/net.c and taken from it.
use ptpd_lwip.Prelude.{
  Option, List, ℕ, Bool, none, ◌≡◌, ◌∷◌, false, ◌<◌, sym, some, true, inl, [], ◌-◌, ◌∙◌, suc, inr,
  arith, refl, zero, ap, get_or,
}
use mathlib.Core.Path.{ap₂}
use ptpd_lwip.Net.Ring.{Packet, Mbox, Ring, null_packet, next_head, push, pop}
use ptpd_lwip.Net.Ring.Fifo.{
  IsValid, contents, push-Pushed, enqueue, read_all, indices, after, Option-cases,
}
use ptpd_lwip.Types.Opt.{pbuf_queue_size}

-- A packet is put in, or one is taken out.
pub data Op : Type 0 where
  put : Packet → Op
  get : Op

-- What is seen of it: whether the packet was put in, and the packet taken out.
abbrev pub Reply : Type 0
Reply = Bool × Option Packet

unfoldable pub run_queue : List Packet → List Op → List Reply
run_queue queue [] = []
run_queue queue (put packet ∷ ops) =
    let (done, queue') = enqueue packet queue in (done, none) ∷ run_queue queue' ops
run_queue [] (get ∷ ops) = (false, none) ∷ run_queue [] ops
run_queue (packet ∷ queue) (get ∷ ops) = (true, some packet) ∷ run_queue queue ops

-- The oldest index leaves a window.
pub indices_tail :
    (x : ℕ) (rest : List ℕ) (start n : ℕ)
    → indices start n ≡ x ∷ rest
    → (0 < n) × (start ≡ x) × (indices (next_head start) (n - 1) ≡ rest)
indices_tail x rest start zero e = absurd (cc e)
indices_tail x rest start (suc n) e = ground arith

retreat :
    (start n head : ℕ)
    → 0 < n
    → start < pbuf_queue_size
    → head ≡ after start n
    → head ≡ after (next_head start) (n - 1)
retreat start n head filled inside e = ground arith

run_queue_empty :
    (queue : List Packet) (ops : List Op)
    → queue ≡ []
    → (false, none) ∷ run_queue queue ops ≡ run_queue queue (get ∷ ops)
unfolding run_queue
run_queue_empty queue ops e = rw e refl

module _ (mb : Mbox) where
  open mb use {Carrier, held, tryfetch, tryfetch_some, tryfetch_none}

  unfoldable pub run_ring : Ring Carrier → List Op → List Reply
  run_ring r [] = []
  run_ring r (put packet ∷ ops) =
      let (done, r') = push mb packet r in (done, none) ∷ run_ring r' ops
  run_ring r (get ∷ ops) =
      let idle = (false, none) ∷ run_ring r ops in
      elim (pop mb r) [ none ↦ idle | some (packet, r') ↦ (true, some packet) ∷ run_ring r' ops ]

  pub fetched-IsValid :
      (r : Ring Carrier) (x : ℕ) (m : Carrier)
      → IsValid mb r
      → held r.mbox ≡ x ∷ held m
      → IsValid mb (record r { mbox = m })
  fetched-IsValid r x m v e =
      let (filled, first, rest) = indices_tail x (held m) v.start v.count (sym v.window ∙ e) in
      record {
        start = next_head v.start;
        count = v.count - 1;
        size = v.size;
        start_in = ground arith;
        count_in = omega (arith, v.count_in);
        head_at = retreat v.start v.count r.head filled v.start_in v.head_at;
        window = sym rest;
      }

  pub pop_empty : (r : Ring Carrier) → tryfetch r.mbox ≡ none → pop mb r ≡ none
  unfolding pop
  pop_empty r e = rw (e, pop) refl

  pub pop_first :
      (r : Ring Carrier) (x : ℕ) (m : Carrier)
      → tryfetch r.mbox ≡ some (x, m)
      → pop mb r ≡ some (get_or r.buf x null_packet, record r { mbox = m })
  unfolding pop
  pop_first r x m e = rw (e, pop) refl

  run_get_empty :
      (r : Ring Carrier) (ops : List Op)
      → pop mb r ≡ none
      → run_ring r (get ∷ ops) ≡ (false, none) ∷ run_ring r ops
  unfolding run_ring
  run_get_empty r ops e = rw (e, run_ring) refl

  run_get_first :
      (r r' : Ring Carrier) (packet : Packet) (ops : List Op)
      → pop mb r ≡ some (packet, r')
      → run_ring r (get ∷ ops) ≡ (true, some packet) ∷ run_ring r' ops
  unfolding run_ring
  run_get_first r r' packet ops e = rw (e, run_ring) refl

  run_put :
      (r : Ring Carrier) (packet : Packet) (ops : List Op)
      → run_ring r (put packet ∷ ops)
        ≡ ((push mb packet r).0, none) ∷ run_ring (push mb packet r).1 ops
  unfolding run_ring
  run_put r packet ops = refl

  -- On a mailbox that keeps its messages in order, holds at most PBUF_QUEUE_SIZE of them and refuses one
  -- only when it is full, no sequence of packets put into a valid ring and taken from it tells the
  -- ring from a queue of PBUF_QUEUE_SIZE packets: each is taken once, in order, and none is
  -- overwritten.
  pub run_refines :
      (ops : List Op) (r : Ring Carrier)
      → IsValid mb r
      → run_ring r ops ≡ run_queue (contents mb r) ops
  unfolding run_queue
  run_refines [] r v = unfold run_ring in refl
  run_refines (put packet ∷ ops) r v =
      let done = push-Pushed mb packet r v in
      run_put r packet ops
      ∙ ap₂ ◌∷◌ (ap (λ q. (q.0, none)) done.refines) (
          run_refines ops (push mb packet r).1 done.valid
          ∙ ap (λ q. run_queue q.1 ops) done.refines)
  run_refines (get ∷ ops) r v = elim (Option-cases (tryfetch r.mbox)) [
    | inl e ↦
        run_get_empty r ops (pop_empty r e)
        ∙ ap (λ rest. (false, none) ∷ rest) (run_refines ops r v)
        ∙ run_queue_empty (contents mb r) ops (ap (read_all r.buf) (tryfetch_none r.mbox e))
    | inr ((x, m), e) ↦
        let holds = tryfetch_some r.mbox x m e in
        let later = record r { mbox = m } in
        run_get_first r later (get_or r.buf x null_packet) ops (pop_first r x m e)
        ∙ ap (λ rest. (true, some (get_or r.buf x null_packet)) ∷ rest)
            (run_refines ops later (fetched-IsValid r x m v holds))
        ∙ ap (λ q. run_queue q (get ∷ ops)) (sym (ap (read_all r.buf) holds))
  ]

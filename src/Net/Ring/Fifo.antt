-- ===== src/Net/Ring/Fifo.antt =====
-- What waits in the ring of src/net.c, and the posting of a packet on it.
use ptpd_lwip.Prelude.{
  List, ℕ, ◌∷◌, length, ◌<◌, ◌+◌, [], get_or, ◌≡◌, set, suc, ◌%◌, zero, ◌++◌, ap, refl, arith, ◌∙◌,
  Option, Bool, ◌≤◌, none, false, ◌⊎◌, some, if◌then◌else◌, ltb, inl, inr, true, get_or-set_ne, sym,
  length-set, get_or-set_self, ◌-◌,
}
use mathlib.Core.Path.{ap₂, subst}
use ptpd_lwip.Net.Ring.{Packet, Mbox, Ring, null_packet, next_head, push}
use ptpd_lwip.Types.Opt.{pbuf_queue_size}

-- `n` indices from `start` on, round the ring.
abbrev pub indices : ℕ → ℕ → List ℕ
indices start zero = []
indices start (suc n) = start ∷ indices (next_head start) n

abbrev pub read_all : List Packet → List ℕ → List Packet
read_all buf [] = []
read_all buf (i ∷ rest) = get_or buf i null_packet ∷ read_all buf rest

length-indices : (start n : ℕ) → length (indices start n) ≡ n
length-indices start zero = refl
length-indices start (suc n) = ap suc (length-indices (next_head start) n)

-- The index after `n` others.
abbrev pub after : ℕ → ℕ → ℕ
after start n = (start + n) % pbuf_queue_size

indices-snoc :
    (start n : ℕ)
    → start < pbuf_queue_size
    → indices start (suc n) ≡ indices start n ++ after start n ∷ []
indices-snoc start zero below = ap (λ i. i ∷ []) (omega arith)
indices-snoc start (suc n) below =
    ap (λ rest. start ∷ rest)
      (indices-snoc (next_head start) n (ground arith)
        ∙ ap (λ i. indices (next_head start) n ++ i ∷ []) (ground arith))

-- A write outside a window is not seen in it.
read_all-set :
    (buf : List Packet) (packet : Packet) (i k start n : ℕ)
    → start < pbuf_queue_size
    → n ≤ k
    → k < pbuf_queue_size
    → i ≡ after start k
    → read_all (set buf i packet) (indices start n) ≡ read_all buf (indices start n)
read_all-set buf packet i k start zero below inside room e = refl
read_all-set buf packet i k start (suc n) below inside room e =
    ap₂ ◌∷◌ (get_or-set_ne buf i start packet null_packet (λ same. omega arith)) (
      read_all-set buf packet i (k - 1) (next_head start) n (ground arith) (omega arith)
        (omega arith) (ground arith))

read_all-append :
    (buf : List Packet) (xs ys : List ℕ)
    → read_all buf (xs ++ ys) ≡ read_all buf xs ++ read_all buf ys
read_all-append buf [] ys = refl
read_all-append buf (x ∷ xs) ys =
    ap (λ rest. get_or buf x null_packet ∷ rest) (read_all-append buf xs ys)

length-read_all : (buf : List Packet) (xs : List ℕ) → length (read_all buf xs) ≡ length xs
length-read_all buf [] = refl
length-read_all buf (x ∷ xs) = ap suc (length-read_all buf xs)

-- What was overwritten is written back.
set-set_back :
    (buf : List Packet) (i : ℕ) (packet : Packet)
    → set (set buf i packet) i (get_or buf i null_packet) ≡ buf
set-set_back [] i packet = refl
set-set_back (x ∷ buf) zero packet = refl
set-set_back (x ∷ buf) (suc i) packet = ap (λ rest. x ∷ rest) (set-set_back buf i packet)

-- A queue of at most PBUF_QUEUE_SIZE packets, the oldest first.
abbrev pub enqueue : Packet → List Packet → Bool × List Packet
enqueue packet queue =
    if ltb (length queue) pbuf_queue_size then (true, queue ++ packet ∷ []) else (false, queue)

pub Option-cases : {A : Type 0} (o : Option A) → (o ≡ none) ⊎ ((a : A) × (o ≡ some a))
Option-cases none = inl refl
Option-cases (some a) = inr (a, refl)

advance : (start n head : ℕ) → head ≡ after start n → next_head head ≡ after start (suc n)
advance start n head e = ground arith

head_inside : (start n head size : ℕ) → head ≡ after start n → size ≡ pbuf_queue_size → head < size
head_inside start n head size e f = omega arith

at_least : (n : ℕ) → pbuf_queue_size ≤ n → ltb n pbuf_queue_size ≡ false
at_least n h = ground arith

below : (n : ℕ) → n < pbuf_queue_size → ltb n pbuf_queue_size ≡ true
below n h = ground arith

module _ (mb : Mbox) where
  open mb use {
    Carrier, held, trypost, tryfetch, trypost_some, trypost_none, tryfetch_some, tryfetch_none,
  }

  -- The mailbox points to the `count` slots before the head, the oldest first.
  pub record IsValid (r : Ring Carrier) : Type 0 where
    pub start : ℕ
    pub count : ℕ
    pub size : length r.buf ≡ pbuf_queue_size
    pub start_in : start < pbuf_queue_size
    pub count_in : count ≤ pbuf_queue_size
    pub head_at : r.head ≡ after start count
    pub window : held r.mbox ≡ indices start count

  -- The packets that the mailbox leads to.
  abbrev pub contents : Ring Carrier → List Packet
  contents r = read_all r.buf (held r.mbox)

  pub length-contents : (r : Ring Carrier) (v : IsValid r) → length (contents r) ≡ v.count
  length-contents r v =
      length-read_all r.buf (held r.mbox) ∙ ap length v.window ∙ length-indices v.start v.count

  -- `push` is `enqueue` on the contents, and keeps a valid ring valid.
  pub record Pushed (packet : Packet) (r : Ring Carrier) (out : Bool × Ring Carrier) : Type 0 where
    pub valid : IsValid out.1
    pub refines : (out.0, contents out.1) ≡ enqueue packet (contents r)

  pushed_full :
      (packet : Packet) (r : Ring Carrier)
      → IsValid r
      → trypost r.mbox r.head ≡ none
      → push mb packet r ≡ (false, r)
  unfolding push
  pushed_full packet r v e =
      rw (e, push) (ap (λ buf. (false, record r { buf = buf })) (set-set_back r.buf r.head packet))

  abbrev pushed : Packet → Ring Carrier → Carrier → Ring Carrier
  pushed packet r m = record { buf = set r.buf r.head packet; head = next_head r.head; mbox = m }

  pushed_room :
      (packet : Packet) (r : Ring Carrier) (m : Carrier)
      → trypost r.mbox r.head ≡ some m
      → push mb packet r ≡ (true, pushed packet r m)
  unfolding push
  pushed_room packet r m e = rw (e, push) refl

  count_room : (r : Ring Carrier) (v : IsValid r) → length (held r.mbox) ≡ v.count
  count_room r v = ap length v.window ∙ length-indices v.start v.count

  pushed-IsValid :
      (packet : Packet) (r : Ring Carrier) (m : Carrier)
      → IsValid r
      → trypost r.mbox r.head ≡ some m
      → IsValid (pushed packet r m)
  pushed-IsValid packet r m v e =
      let (posted, room) = trypost_some r.mbox r.head m e in
      let fits : v.count < pbuf_queue_size = rw (← count_room r v) room in
      record {
        start = v.start;
        count = suc v.count;
        size = length-set r.buf r.head packet ∙ v.size;
        start_in = v.start_in;
        count_in = omega arith;
        head_at = advance v.start v.count r.head v.head_at;
        window =
            posted
            ∙ ap₂ (λ xs i. xs ++ i ∷ []) v.window v.head_at
            ∙ sym (indices-snoc v.start v.count v.start_in);
      }

  pushed-contents :
      (packet : Packet) (r : Ring Carrier) (m : Carrier)
      → IsValid r
      → trypost r.mbox r.head ≡ some m
      → contents (pushed packet r m) ≡ contents r ++ packet ∷ []
  pushed-contents packet r m v e =
      let (posted, room) = trypost_some r.mbox r.head m e in
      let fits : v.count < pbuf_queue_size = rw (← count_room r v) room in
      let written = set r.buf r.head packet in
      let inside : r.head < length r.buf =
        head_inside v.start v.count r.head (length r.buf) v.head_at v.size in
      let old : read_all written (held r.mbox) ≡ read_all r.buf (held r.mbox) =
        ap (read_all written) v.window
        ∙ read_all-set r.buf packet r.head v.count v.start v.count v.start_in (omega arith) fits
            v.head_at
        ∙ ap (read_all r.buf) (sym v.window) in
      let new : read_all written (r.head ∷ []) ≡ packet ∷ [] =
        ap (λ x. x ∷ []) (get_or-set_self r.buf r.head packet null_packet inside) in
      ap (read_all written) posted
      ∙ read_all-append written (held r.mbox) (r.head ∷ [])
      ∙ ap₂ (λ xs ys. xs ++ ys) old new

  -- `push` on a valid ring answers as a queue of PBUF_QUEUE_SIZE packets does: the packet goes to the
  -- end of the contents, or, with as many packets waiting, all is as before. The ring stays valid.
  pub push-Pushed :
      (packet : Packet) (r : Ring Carrier) → IsValid r → Pushed packet r (push mb packet r)
  push-Pushed packet r v = elim (Option-cases (trypost r.mbox r.head)) [
    | inl e ↦ subst (Pushed packet r) (sym (pushed_full packet r v e)) (record {
      valid = v;
      refines =
          let full : ltb (length (contents r)) pbuf_queue_size ≡ false =
            rw (length-contents r v)
              (at_least v.count (rw (← count_room r v) (trypost_none r.mbox r.head e))) in
          rw full refl;
    })
    | inr (m, e) ↦ subst (Pushed packet r) (sym (pushed_room packet r m e)) (record {
      valid = pushed-IsValid packet r m v e;
      refines =
          let room : ltb (length (contents r)) pbuf_queue_size ≡ true =
            rw (length-contents r v)
              (below v.count (rw (← count_room r v) (trypost_some r.mbox r.head m e).1)) in
          rw room (ap (λ q. (true, q)) (pushed-contents packet r m v e));
    })
  ]

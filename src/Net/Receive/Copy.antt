-- ===== src/Net/Receive/Copy.antt =====
-- The copy loop of `netRecv` in src/net.c: what it leaves in the buffer.
use ptpd_lwip.Net.Receive.{store, copy_chain, advance}
use ptpd_lwip.Types.Clock.{Buffer}
use ptpd_lwip.Prelude.{
  List, ℕ, length, get_elem?, ◌∷◌, ◌<◌, ◌≡◌, ◌+◌, ◌++◌, [], some, if◌then◌else◌, arith, ltb, refl,
  get_or, ◌-◌, suc, ◌≢◌, ap, zero, ◌∙◌,
}
use mathlib.Core.List.{append_assoc}

-- The octets of a chain, in order.
abbrev pub concat : List (List ℕ) → List ℕ
concat [] = []
concat (payload ∷ chain) = payload ++ concat chain

-- No packet buffer of the chain is empty.
abbrev pub AreFilled : List (List ℕ) → Type 0
AreFilled [] = Unit
AreFilled (payload ∷ chain) = (0 < length payload) × AreFilled chain

-- The octets stored one after another from `i` on.
abbrev pub store_all : ℕ → List ℕ → Buffer → Buffer
store_all i [] buf = buf
store_all i (byte ∷ bytes) buf = store_all (i + 1) bytes (store i byte buf)

length-append : (xs ys : List ℕ) → length (xs ++ ys) ≡ length xs + length ys
length-append [] ys = omega arith
length-append (x ∷ xs) ys = omega (arith, length-append xs ys)

get_elem?-append :
    (xs : List ℕ) (y : ℕ) (ys : List ℕ) → get_elem? (xs ++ y ∷ ys) (length xs) ≡ some y
get_elem?-append [] y ys = refl
get_elem?-append (x ∷ xs) y ys = get_elem?-append xs y ys

get_or-cons : (x : ℕ) (xs : List ℕ) (j : ℕ) → j ≢ 0 → get_or (x ∷ xs) j 0 ≡ get_or xs (j - 1) 0
get_or-cons x xs zero ne = absurd (ne refl)
get_or-cons x xs (suc j) ne = ap (λ k. get_or xs k 0) (omega arith)

get_or_head : (x : ℕ) (xs : List ℕ) (j : ℕ) → j ≡ 0 → get_or (x ∷ xs) j 0 ≡ x
get_or_head x xs zero e = refl
get_or_head x xs (suc j) e = absurd (omega arith)

store_all_lem :
    (bytes : List ℕ) (i k : ℕ) (buf : Buffer)
    → store_all i bytes buf k ≡ (
        if ltb k i
        then buf k
        else if ltb k (i + length bytes)
        then get_or bytes (k - i) 0
        else buf k)
store_all_lem [] i k buf = ground arith
store_all_lem (byte ∷ bytes) i k buf =
    store_all_lem bytes (i + 1) k (store i byte buf)
    ∙ ground (arith, get_or-cons byte bytes (k - i), get_or_head byte bytes (k - i), shifted)
  where
    shifted : get_or bytes (k - (i + 1)) 0 ≡ get_or bytes (k - i - 1) 0
    shifted = ap (λ j. get_or bytes j 0) (omega arith)

copy_chain_done : (i : ℕ) (buf : Buffer) → copy_chain 0 i 0 [] buf ≡ some buf
unfolding copy_chain
copy_chain_done i buf = refl

-- One round of the loop.
copy_chain_step :
    (left : ℕ) (chain : List (List ℕ)) (byte : ℕ) (rest done : List ℕ) (i : ℕ) (buf : Buffer)
    → copy_chain (suc left) i (length done) ((done ++ byte ∷ rest) ∷ chain) buf ≡ (
        let (j, next) = advance (done ++ byte ∷ rest) chain (length done + 1) in
        copy_chain left (i + 1) j next (store i byte buf))
unfolding copy_chain
copy_chain_step left chain byte rest done i buf =
    rw (get_elem?-append done byte rest, copy_chain) refl

-- Within a packet buffer, and at its end.
advance_within :
    (chain : List (List ℕ)) (byte next : ℕ) (rest done : List ℕ)
    → advance (done ++ byte ∷ next ∷ rest) chain (length done + 1)
      ≡ (length (done ++ byte ∷ []), ((done ++ byte ∷ []) ++ next ∷ rest) ∷ chain)
advance_within chain byte next rest done = ground (
  arith,
  length-append done (byte ∷ next ∷ rest),
  length-append done (byte ∷ []),
  append_assoc done (byte ∷ []) (next ∷ rest),
)

advance_end :
    (chain : List (List ℕ)) (byte : ℕ) (done : List ℕ)
    → advance (done ++ byte ∷ []) chain (length done + 1) ≡ (0, chain)
advance_end chain byte done = ground (arith, length-append done (byte ∷ []))

-- The loop from index `length done` of the packet buffer on.
copy_chain_from :
    (chain : List (List ℕ)) (byte : ℕ) (rest done : List ℕ) (i : ℕ) (buf : Buffer)
    → AreFilled chain
    → copy_chain
        (length ((byte ∷ rest) ++ concat chain))
        i
        (length done)
        ((done ++ byte ∷ rest) ∷ chain)
        buf
      ≡ some (store_all i ((byte ∷ rest) ++ concat chain) buf)
copy_chain_from chain byte (next ∷ rest) done i buf filled =
    copy_chain_step _ chain byte (next ∷ rest) done i buf
    ∙ rw (advance_within chain byte next rest done)
        (copy_chain_from chain next rest (done ++ byte ∷ []) (i + 1) (store i byte buf) filled)
copy_chain_from [] byte [] done i buf filled =
    copy_chain_step _ [] byte [] done i buf
    ∙ rw (advance_end [] byte done) (copy_chain_done (i + 1) _)
copy_chain_from ([] ∷ chain) byte [] done i buf filled = absurd (omega arith)
copy_chain_from ((x ∷ xs) ∷ chain) byte [] done i buf filled =
    copy_chain_step _ ((x ∷ xs) ∷ chain) byte [] done i buf
    ∙ rw (advance_end ((x ∷ xs) ∷ chain) byte done)
        (copy_chain_from chain x xs [] (i + 1) (store i byte buf) filled.1)

-- For a chain none of whose packet buffers is empty, and as many octets as it holds, the copy loop
-- reads within the payloads alone, and leaves the octets of the chain in order at the start of the
-- buffer and the rest of the buffer as it was.
pub copy_chain_lem :
    (chain : List (List ℕ)) (buf : Buffer)
    → AreFilled chain
    → (copied : Buffer) × (copy_chain (length (concat chain)) 0 0 chain buf ≡ some copied)
      × ((k : ℕ)
          → copied k ≡ (if ltb k (length (concat chain)) then get_or (concat chain) k 0 else buf k))
copy_chain_lem [] buf filled = (buf, copy_chain_done 0 buf, λ k. ground arith)
copy_chain_lem ([] ∷ chain) buf filled = absurd (omega arith)
copy_chain_lem ((x ∷ xs) ∷ chain) buf filled = (
  store_all 0 ((x ∷ xs) ++ concat chain) buf,
  copy_chain_from chain x xs [] 0 buf filled.1,
  λ k. store_all_lem ((x ∷ xs) ++ concat chain) 0 k buf ∙ ground arith,
)

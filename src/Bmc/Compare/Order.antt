-- ===== src/Bmc/Compare/Order.antt =====
-- `bmcDataSetComparison` of src/bmc.c as an order: exchange of its arguments, and its ties.
use ptpd_lwip.Bmc.Memory.{memcmp}
use ptpd_lwip.Bmc.Compare.Rank.{identities}
use ptpd_lwip.Bmc.Memory.Laws.{negate, memcmp-swap, memcmp-sign, memcmp-eq, memcmp_self}
use ptpd_lwip.Prelude.Int.{ℤ, ◌+ℤ◌, pos, negsuc, +ℤ_parts, one_sign, eq_of_parts, eqb_ℤ}
use ptpd_lwip.Bmc.Compare.{
  compare_grandmasters, data_set_comparison, compare_topology, by_distance, b_better, a_better,
  by_sign,
}
use ptpd_lwip.Prelude.{List, ℕ, ◌≡◌, ◌⊎◌, arith, length, ◌↔◌, ◌∙◌, ◌≢◌, refl, inl, inr, Bool-cases}
use ptpd_lwip.Types.Message.{ClockIdentity, MsgHeader, MsgAnnounce, octets}

abbrev pub sender : MsgHeader → List ℕ
sender h = octets h.source_port_identity.clock_identity

by_distance_swap :
    (x y fa fb na nb l : ℤ)
    → by_distance y x (negate fb) (negate fa) (negate nb) (negate na) (negate l)
      ≡ negate (by_distance x y fa fb na nb l)
unfolding by_distance
by_distance_swap x y fa fb na nb l =
    ground
      (arith, +ℤ_parts x (pos 1), +ℤ_parts y (pos 1), one_sign (x +ℤ pos 1), one_sign (y +ℤ pos 1))

-- A tie at a distance: the five cases are exclusive.
by_distance-eq_zero :
    (x y na nb l : ℤ)
    → (by_distance x y b_better a_better na nb l ≡ pos 0) ↔ (
        ((x ≡ y +ℤ pos 1) × (na ≡ pos 0))
        ⊎ ((y ≡ x +ℤ pos 1) × (nb ≡ pos 0))
        ⊎ ((x ≡ y) × (l ≡ pos 0)))
unfolding by_distance
by_distance-eq_zero x y na nb l = ground (
  arith,
  +ℤ_parts x (pos 1),
  +ℤ_parts y (pos 1),
  one_sign (x +ℤ pos 1),
  one_sign (y +ℤ pos 1),
  eq_of_parts x (y +ℤ pos 1),
  eq_of_parts y (x +ℤ pos 1),
  eq_of_parts x y,
)

negate-by_sign : (c p q : ℤ) → by_sign c (negate p) (negate q) ≡ negate (by_sign c p q)
negate-by_sign c p q = ground arith

by_sign_swap : (xs ys : List ℕ) (p q : ℤ) → by_sign (memcmp ys xs) p q ≡ by_sign (memcmp xs ys) q p
by_sign_swap xs ys p q = rw (memcmp-swap xs ys) (ground (arith, memcmp-sign xs ys))

by_sign-eq_zero :
    (xs ys : List ℕ) (p q : ℤ)
    → length xs ≡ length ys
    → p ≢ pos 0
    → q ≢ pos 0
    → (by_sign (memcmp xs ys) p q ≡ pos 0) ↔ (xs ≡ ys)
by_sign-eq_zero xs ys p q l hp hq = (
  λ e. memcmp-eq xs ys l (ground (arith, memcmp-sign xs ys)),
  λ e. rw e (rw (memcmp_self ys) refl),
)

↔_trans : {P Q R : Type 0} → P ↔ Q → Q ↔ R → P ↔ R
↔_trans f g = (λ p. g.0 (f.0 p), λ r. f.1 (g.1 r))

sum_map :
    {A B C P Q R X Y Z : Type 0}
    → (P → X)
    → (Q → Y)
    → (R → Z)
    → (A × P) ⊎ (B × Q) ⊎ (C × R)
    → (A × X) ⊎ (B × Y) ⊎ (C × Z)
sum_map f g h (inl (a, p)) = inl (a, f p)
sum_map f g h (inr (inl (b, q))) = inr (inl (b, g q))
sum_map f g h (inr (inr (c, r))) = inr (inr (c, h r))

sum_iff :
    {A B C P Q R X Y Z : Type 0}
    → P ↔ X
    → Q ↔ Y
    → R ↔ Z
    → ((A × P) ⊎ (B × Q) ⊎ (C × R)) ↔ ((A × X) ⊎ (B × Y) ⊎ (C × Z))
sum_iff f g h = (sum_map f.0 g.0 h.0, sum_map f.1 g.1 h.1)

module _ (own : ClockIdentity) (ha : MsgHeader) (a : MsgAnnounce) (hb : MsgHeader)
    (b : MsgAnnounce) where
  topology_swap : compare_topology own hb b ha a ≡ negate (compare_topology own ha a hb b)
  unfolding compare_topology ◌+ℤ◌
  topology_swap =
      (λ i.
        by_distance b.steps_removed a.steps_removed b_better a_better
          (negate-by_sign (memcmp (sender hb) (octets own)) a_better a_better i)
          (negate-by_sign (memcmp (sender ha) (octets own)) b_better b_better i)
          ((by_sign_swap (sender ha) (sender hb) b_better a_better
              ∙ negate-by_sign (memcmp (sender ha) (sender hb)) b_better a_better)
            i))
      ∙ by_distance_swap a.steps_removed b.steps_removed b_better a_better
          (by_sign (memcmp (sender ha) (octets own)) b_better b_better)
          (by_sign (memcmp (sender hb) (octets own)) a_better a_better)
          (by_sign (memcmp (sender ha) (sender hb)) b_better a_better)

  grandmasters_swap :
      (gm t : ℤ)
      → (gm ≡ negsuc 0) ⊎ (gm ≡ pos 0) ⊎ (gm ≡ pos 1)
      → compare_grandmasters (negate gm) (negate t) b a ≡ negate (compare_grandmasters gm t a b)
  unfolding compare_grandmasters
  grandmasters_swap gm t h = ground arith

  -- The comparison of B with A is the opposite of the comparison of A with B, in both parts of the
  -- algorithm and in the two error cases.
  pub data_set_comparison_swap :
      data_set_comparison own hb b ha a ≡ negate (data_set_comparison own ha a hb b)
  unfolding data_set_comparison
  data_set_comparison_swap = ground (
    arith,
    topology_swap,
    grandmasters_swap (identities a b) (compare_topology own ha a hb b),
    memcmp-swap (octets a.grandmaster_identity) (octets b.grandmaster_identity),
    memcmp-sign (octets a.grandmaster_identity) (octets b.grandmaster_identity),
  )

  -- What it takes for a tie: one grandmaster, and either equal distances and one sender, or
  -- distances that differ by one and a farther sender that is the receiving port itself.
  abbrev pub IsTie : Type 0
  IsTie =
      (octets a.grandmaster_identity ≡ octets b.grandmaster_identity)
      × (((a.steps_removed ≡ b.steps_removed +ℤ pos 1) × (sender ha ≡ octets own))
          ⊎ ((b.steps_removed ≡ a.steps_removed +ℤ pos 1) × (sender hb ≡ octets own))
          ⊎ ((a.steps_removed ≡ b.steps_removed) × (sender ha ≡ sender hb)))

  topology-IsTie : (compare_topology own ha a hb b ≡ pos 0) ↔ (
      ((a.steps_removed ≡ b.steps_removed +ℤ pos 1) × (sender ha ≡ octets own))
      ⊎ ((b.steps_removed ≡ a.steps_removed +ℤ pos 1) × (sender hb ≡ octets own))
      ⊎ ((a.steps_removed ≡ b.steps_removed) × (sender ha ≡ sender hb)))
  unfolding compare_topology
  topology-IsTie =
      ↔_trans
        (by_distance-eq_zero a.steps_removed b.steps_removed
          (by_sign (memcmp (sender ha) (octets own)) b_better b_better)
          (by_sign (memcmp (sender hb) (octets own)) a_better a_better)
          (by_sign (memcmp (sender ha) (sender hb)) b_better a_better))
        (sum_iff
          (by_sign-eq_zero (sender ha) (octets own) b_better b_better refl (λ e. cc) (λ e. cc))
          (by_sign-eq_zero (sender hb) (octets own) a_better a_better refl (λ e. cc) (λ e. cc))
          (by_sign-eq_zero (sender ha) (sender hb) b_better a_better refl (λ e. cc) (λ e. cc)))

  grandmasters-ne_zero : (gm t : ℤ) → gm ≢ pos 0 → compare_grandmasters gm t a b ≢ pos 0
  unfolding compare_grandmasters
  grandmasters-ne_zero gm t ne = ground arith

  pub one_grandmaster :
      octets a.grandmaster_identity ≡ octets b.grandmaster_identity → identities a b ≡ pos 0
  one_grandmaster e = rw e (memcmp_self (octets b.grandmaster_identity))

  -- `bmcDataSetComparison` answers 0 for a tie and for nothing else: one grandmaster, and either
  -- equal distances and one sender, or distances that differ by one where the sender of the longer
  -- one is the receiving port's own clock.
  pub data_set_comparison-IsTie : (data_set_comparison own ha a hb b ≡ pos 0) ↔ IsTie
  unfolding data_set_comparison
  data_set_comparison-IsTie = (
    λ e. elim (Bool-cases (eqb_ℤ (pos 0) (identities a b))) [
      | inl same ↦ (memcmp-eq _ _ refl (ground arith), topology-IsTie.0 (rw same at e))
      | inr other ↦ absurd (grandmasters-ne_zero (identities a b) _ (ground arith) (rw other at e))
    ],
    λ t. rw (one_grandmaster t.0) (topology-IsTie.1 t.1),
  )

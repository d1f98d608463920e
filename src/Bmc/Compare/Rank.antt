-- ===== src/Bmc/Compare/Rank.antt =====
-- Part 1 of `bmcDataSetComparison` of src/bmc.c as one lexicographic comparison.
use ptpd_lwip.Bmc.Memory.Laws.{negate, memcmp-cons, memcmp-sign}
use ptpd_lwip.Bmc.Memory.{memcmp}
use ptpd_lwip.Prelude.{List, ◌≢◌, ℕ, ◌∷◌, ◌≡◌, ◌+◌, ◌-◌, if◌then◌else◌, arith}
use ptpd_lwip.Prelude.Word.{IsS16}
use ptpd_lwip.Prelude.Int.{ℤ, pos, pos_part, neg_part, ltb_ℤ}
use ptpd_lwip.Types.Message.{MsgAnnounce, octets, ClockIdentity, MsgHeader}
use ptpd_lwip.Bmc.Compare.{
  compare_grandmasters, data_set_comparison, return_better, b_better, a_better, compare_topology,
}

-- What an Announce message says of its grandmaster, the most significant property first. The
-- variance is shifted to keep the order of signed numbers.
abbrev pub rank : MsgAnnounce → List ℕ
rank a =
    a.grandmaster_priority1
    ∷ q.clock_class
    ∷ q.clock_accuracy
    ∷ (pos_part q.offset_scaled_log_variance + 32768 - neg_part q.offset_scaled_log_variance)
    ∷ a.grandmaster_priority2
    ∷ octets a.grandmaster_identity
  where
    open a use {grandmaster_clock_quality as q}

abbrev pub IsVariance : MsgAnnounce → Type 0
IsVariance a = IsS16 a.grandmaster_clock_quality.offset_scaled_log_variance

abbrev pub identities : MsgAnnounce → MsgAnnounce → ℤ
identities a b = memcmp (octets a.grandmaster_identity) (octets b.grandmaster_identity)

module _ (n : ℤ) (xs ys : List ℕ) (e : n ≡ negate (memcmp xs ys)) where
  field_step : (x y : ℕ) → return_better (pos x) (pos y) n ≡ negate (memcmp (x ∷ xs) (y ∷ ys))
  field_step x y = rw (memcmp-cons x y xs ys) (ground arith)

  variance_step :
      (x y : ℤ)
      → IsS16 x
      → IsS16 y
      → return_better x y n
        ≡ negate (
            memcmp
              ((pos_part x + 32768 - neg_part x) ∷ xs)
              ((pos_part y + 32768 - neg_part y) ∷ ys))
  variance_step x y hx hy =
      rw (memcmp-cons (pos_part x + 32768 - neg_part x) (pos_part y + 32768 - neg_part y) xs ys)
        (ground arith)

identity_step :
    (xs ys : List ℕ) (topology : ℤ)
    → memcmp xs ys ≢ pos 0
    → (if ltb_ℤ (pos 0) (memcmp xs ys)
        then b_better
        else if ltb_ℤ (memcmp xs ys) (pos 0)
        then a_better
        else topology)
      ≡ negate (memcmp xs ys)
identity_step xs ys topology ne = ground (arith, memcmp-sign xs ys)

compare_grandmasters-rank :
    (a b : MsgAnnounce) (topology : ℤ)
    → IsVariance a
    → IsVariance b
    → identities a b ≢ pos 0
    → compare_grandmasters (identities a b) topology a b ≡ negate (memcmp (rank a) (rank b))
unfolding compare_grandmasters
compare_grandmasters-rank a b topology va vb ne =
    field_step _ _ _
      (field_step _ _ _
        (field_step _ _ _
          (variance_step _ _ _
            (field_step _ _ _
              (identity_step (octets a.grandmaster_identity) (octets b.grandmaster_identity)
                topology ne)
              a.grandmaster_priority2 b.grandmaster_priority2)
            qa.offset_scaled_log_variance qb.offset_scaled_log_variance va vb)
          qa.clock_accuracy qb.clock_accuracy)
        qa.clock_class qb.clock_class)
      a.grandmaster_priority1 b.grandmaster_priority1
  where
    open a use {grandmaster_clock_quality as qa}
    open b use {grandmaster_clock_quality as qb}

-- When two Announce messages name different grandmasters, `bmcDataSetComparison` compares their
-- ranks lexicographically: priority 1, class, accuracy, variance, priority 2, identity. The lower
-- rank is the better one, whoever sent the messages and wherever they were received.
pub data_set_comparison-rank :
    (own : ClockIdentity) (header_a header_b : MsgHeader) (a b : MsgAnnounce)
    → IsVariance a
    → IsVariance b
    → identities a b ≢ pos 0
    → data_set_comparison own header_a a header_b b ≡ negate (memcmp (rank a) (rank b))
unfolding data_set_comparison
data_set_comparison-rank own header_a header_b a b va vb ne = ground (
  arith,
  memcmp-sign (octets a.grandmaster_identity) (octets b.grandmaster_identity),
  compare_grandmasters-rank a b (compare_topology own header_a a header_b b),
)

-- ===== src/Bmc/Decision/Choice.antt =====
-- Which foreign master the loop of `bmc` in src/bmc.c chooses.
use ptpd_lwip.Bmc.Compare.Order.{one_grandmaster, data_set_comparison-IsTie}
use ptpd_lwip.Bmc.Memory.Laws.{negate, memcmp_trans, memcmp-sign, memcmp-swap}
use ptpd_lwip.Prelude.Word.{IsS16}
use ptpd_lwip.Bmc.Compare.{data_set_comparison, a_better}
use ptpd_lwip.Bmc.Compare.Rank.{rank, data_set_comparison-rank}
use ptpd_lwip.Bmc.Foreign.{record_at}
use ptpd_lwip.Prelude.Int.{ℤ, pos, ltb_ℤ, negsuc}
use ptpd_lwip.Bmc.Decision.{find_best, bmc_best}
use ptpd_lwip.Bmc.Memory.{memcmp}
use ptpd_lwip.Types.DataSet.{ForeignMasterRecord}
use ptpd_lwip.Types.Message.{ClockIdentity, MsgAnnounce, octets}
use ptpd_lwip.Prelude.{
  List, ℕ, ◌<◌, ◌+◌, ◌≢◌, ◌≡◌, true, ◌⊎◌, false, arith, refl, suc, inl, inr, zero, ◌-◌, ◌∙◌, ap,
}
use native.Mathlib.Decide.{dec_lt, ℕ_discrete}
use ptpd_lwip.Types.Clock.{PtpClock}

abbrev announce_at : List ForeignMasterRecord → ℕ → MsgAnnounce
announce_at records j = (record_at records j).announce

-- The first `count` records name different grandmasters.
pub record AreDistinct (records : List ForeignMasterRecord) (count : ℕ) : Type 0 where
  pub variances :
      (j : ℕ)
      → j < count
      → IsS16 (record_at records j).announce.grandmaster_clock_quality.offset_scaled_log_variance
  pub distinct :
      (i j : ℕ)
      → i < count
      → j < count
      → i ≢ j
      → memcmp
          (octets (record_at records i).announce.grandmaster_identity)
          (octets (record_at records j).announce.grandmaster_identity)
        ≢ pos 0

-- `bmcDataSetComparison` on two of the records.
abbrev pub compare_at : ClockIdentity → List ForeignMasterRecord → ℕ → ℕ → ℤ
compare_at own records i j =
    data_set_comparison own (record_at records i).header (record_at records i).announce
      (record_at records j).header (record_at records j).announce

signs :
    (comp : ℤ) (xs ys : List ℕ)
    → comp ≡ negate (memcmp xs ys)
    → comp ≢ pos 0
    → (ltb_ℤ comp (pos 0) ≡ true) × (memcmp ys xs ≡ negsuc 0)
      ⊎ (ltb_ℤ comp (pos 0) ≡ false) × (memcmp xs ys ≡ negsuc 0)
signs comp xs ys e ne = ground (arith, memcmp-sign xs ys, memcmp-swap xs ys)

module _ (own : ClockIdentity) (records : List ForeignMasterRecord) (count : ℕ)
    (d : AreDistinct records count) where
  abbrev Before : ℕ → ℕ → Type 0
  Before i j = memcmp (rank (announce_at records i)) (rank (announce_at records j)) ≡ negsuc 0

  compare_rank :
      (i j : ℕ)
      → i < count
      → j < count
      → i ≢ j
      → compare_at own records i j
        ≡ negate (memcmp (rank (announce_at records i)) (rank (announce_at records j)))
  compare_rank i j hi hj ne =
      data_set_comparison-rank own _ _ (announce_at records i) (announce_at records j)
        (d.variances i hi) (d.variances j hj) (d.distinct i j hi hj ne)

  compare-ne_zero : (i j : ℕ) → i < count → j < count → i ≢ j → compare_at own records i j ≢ pos 0
  compare-ne_zero i j hi hj ne e = d.distinct i j hi hj ne (
      one_grandmaster own (record_at records i).header (announce_at records i)
        (record_at records j).header (announce_at records j)
        ((data_set_comparison-IsTie own (record_at records i).header (announce_at records i)
            (record_at records j).header (announce_at records j)).0
          e).0)

  -- A negative comparison says that the second record has the lower rank, and a positive one that
  -- the first has.
  compare_cases :
      (i j : ℕ)
      → i < count
      → j < count
      → i ≢ j
      → (ltb_ℤ (compare_at own records i j) (pos 0) ≡ true) × Before j i
        ⊎ (ltb_ℤ (compare_at own records i j) (pos 0) ≡ false) × Before i j
  compare_cases i j hi hj ne =
      signs (compare_at own records i j) (rank (announce_at records i))
        (rank (announce_at records j)) (compare_rank i j hi hj ne) (compare-ne_zero i j hi hj ne)

  abbrev IsLast : ℕ → ℕ → Type 0
  IsLast i best = (best < i) × ((j : ℕ) → j < i → j ≢ best → Before j best)

  Before-trans : (i j k : ℕ) → Before i j → Before j k → Before i k
  Before-trans i j k =
      memcmp_trans (rank (announce_at records i)) (rank (announce_at records j))
        (rank (announce_at records k)) refl refl

  step_kept : (i best : ℕ) → IsLast i best → Before i best → IsLast (i + 1) best
  step_kept i best (lt, last) b = (
    omega arith,
    λ j hj ne. elim (dec_lt j i) [
      | yes p ↦ last j p ne
      | no p ↦ (let e : j ≡ i = omega arith in rw e b)
    ],
  )

  step_moved : (i best : ℕ) → IsLast i best → Before best i → IsLast (i + 1) i
  step_moved i best (lt, last) b = (
    omega arith,
    λ j hj ne. elim (ℕ_discrete j best) [
      | yes e ↦ rw e b
      | no p ↦ Before-trans j best i (last j (omega arith) p) b
    ],
  )

  find_best-IsLast :
      (left i best : ℕ)
      → i + left ≡ count
      → IsLast i best
      → IsLast count (find_best own records left i best)
  unfolding find_best
  find_best-IsLast zero i best e h = let e' : count ≡ i = omega arith in rw e' h
  find_best-IsLast (suc left) i best e h =
      elim (compare_cases i best (omega arith) (omega arith) (omega arith)) [
        | inl (test, b) ↦
            rw test (find_best-IsLast left (i + 1) i (omega arith) (step_moved i best h b))
        | inr (test, b) ↦
            rw test (find_best-IsLast left (i + 1) best (omega arith) (step_kept i best h b))
      ]

-- With foreign masters that all name different grandmasters, `bmc` chooses the one that
-- `bmcDataSetComparison` places last: every other record is the better one of the two.
pub bmc_best_is_worst :
    (c : PtpClock)
    → 0 < c.foreign_master_ds.count
    → AreDistinct c.foreign_master_ds.records c.foreign_master_ds.count
    → (bmc_best c < c.foreign_master_ds.count)
      × ((j : ℕ)
          → j < c.foreign_master_ds.count
          → j ≢ bmc_best c
          → compare_at c.port_ds.port_identity.clock_identity c.foreign_master_ds.records j
              (bmc_best c)
            ≡ a_better)
unfolding bmc_best
bmc_best_is_worst c nonempty d =
    let (lt, last) =
      find_best-IsLast own records count d (count - 1) 1 0 (omega arith)
        (omega arith, λ j h ne. absurd (omega arith)) in
    (
      lt,
      λ j hj ne.
          compare_rank own records count d j (bmc_best c) hj lt ne ∙ ap negate (last j hj ne),
    )
  where
    open c use {port_ds.{port_identity.{clock_identity as own}}, foreign_master_ds.{records, count}}

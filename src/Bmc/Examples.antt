-- ===== src/Bmc/Examples.antt =====
-- Runs of src/bmc.c and instances of the theorems about it.
use ptpd_lwip.Bmc.Update.{m1, s1}
use Prim.Native.Nat.{min}
use ptpd_lwip.Bmc.Compare.Order.{data_set_comparison_swap, IsTie, data_set_comparison-IsTie}
use ptpd_lwip.Prelude.Int.{pos, ◌+ℤ◌}
use ptpd_lwip.Types.Opt.{slave}
use ptpd_lwip.Bmc.Memory.Laws.{negate}
use ptpd_lwip.Bmc.Decision.Choice.{compare_at, bmc_best_is_worst}
use ptpd_lwip.Prelude.Word.{IsS16, s16, residue, signed}
use ptpd_lwip.Types.Sample.{
  sample_identity, sample_clock, sample_announce, sample_table, sample_record, sample_header,
}
use ptpd_lwip.Types.Zero.{zero_header}
use ptpd_lwip.Types.Message.{MsgHeader, octets}
use ptpd_lwip.Bmc.Memory.{memcmp}
use ptpd_lwip.Bmc.Compare.{
  data_set_comparison, a_better, compare_grandmasters, compare_topology, by_distance,
}
use ptpd_lwip.Bmc.Foreign.Table.{InBounds, IsUnknown, add_foreign_ds_duplicates, add_foreign_ds_new}
use ptpd_lwip.Bmc.Decision.State.{Agrees, with_best, best_record, bmc-Agrees}
use ptpd_lwip.Prelude.{ℕ, ◌<◌, ◌≡◌, ◌≢◌, arith, true, suc, refl, zero, ◌↔◌, ◌+◌, ◌%◌}
use ptpd_lwip.Bmc.Init.{init_data}
use ptpd_lwip.Bmc.Compare.Rank.{identities, rank, data_set_comparison-rank}
use ptpd_lwip.Bmc.Decision.{bmc_state_decision, bmc_best, bmc, copy_d0, recommend}
use ptpd_lwip.Bmc.Foreign.{record_at, is_same_port_identity, add_foreign_ds, add_foreign}

algorithm : Unit {0}
unfolding bmc bmc_best bmc_state_decision recommend copy_d0 data_set_comparison compare_grandmasters
    compare_topology by_distance memcmp is_same_port_identity add_foreign add_foreign_ds m1 s1
    init_data s16 residue signed ◌+ℤ◌
algorithm = tt

-- The second of the three masters has the lowest first priority, and the third is chosen.
chosen : bmc_best sample_clock ≡ 2
unfolding algorithm
chosen = refl

recommended : (bmc sample_clock).1 ≡ slave
unfolding algorithm
recommended = refl

init_data_identity : (init_data sample_clock).default_ds.clock_identity ≡ sample_identity
unfolding algorithm
init_data_identity = refl

different : identities (sample_announce 10 12) (sample_announce 20 11) ≢ pos 0
unfolding memcmp
different e = cc

data_set_comparison-rank_example :
    data_set_comparison sample_identity zero_header
      (sample_announce 10 12)
      zero_header
      (sample_announce 20 11)
    ≡ negate (memcmp (rank (sample_announce 10 12)) (rank (sample_announce 20 11)))
data_set_comparison-rank_example =
    data_set_comparison-rank sample_identity zero_header zero_header (sample_announce 10 12)
      (sample_announce 20 11) (omega arith) (omega arith) different

data_set_comparison_swap_example :
    data_set_comparison sample_identity zero_header
      (sample_announce 20 11)
      sample_header
      (sample_announce 10 12)
    ≡ negate (
        data_set_comparison sample_identity sample_header
          (sample_announce 10 12)
          zero_header
          (sample_announce 20 11))
data_set_comparison_swap_example =
    data_set_comparison_swap sample_identity sample_header (sample_announce 10 12) zero_header
      (sample_announce 20 11)

data_set_comparison-IsTie_example :
    (data_set_comparison sample_identity sample_header
        (sample_announce 10 12)
        zero_header
        (sample_announce 20 11)
      ≡ pos 0)
    ↔ IsTie sample_identity sample_header
        (sample_announce 10 12)
        zero_header
        (sample_announce 20 11)
data_set_comparison-IsTie_example =
    data_set_comparison-IsTie sample_identity sample_header (sample_announce 10 12) zero_header
      (sample_announce 20 11)

distinct_below :
    (i j : ℕ)
    → i < 3
    → j < 3
    → i ≢ j
    → memcmp
        (octets (record_at sample_table.records i).announce.grandmaster_identity)
        (octets (record_at sample_table.records j).announce.grandmaster_identity)
      ≢ pos 0
unfolding memcmp
distinct_below zero zero hi hj ne e = ne refl
distinct_below zero (suc zero) hi hj ne e = cc
distinct_below zero (suc (suc zero)) hi hj ne e = cc
distinct_below (suc zero) zero hi hj ne e = cc
distinct_below (suc zero) (suc zero) hi hj ne e = ne refl
distinct_below (suc zero) (suc (suc zero)) hi hj ne e = cc
distinct_below (suc (suc zero)) zero hi hj ne e = cc
distinct_below (suc (suc zero)) (suc zero) hi hj ne e = cc
distinct_below (suc (suc zero)) (suc (suc zero)) hi hj ne e = ne refl
distinct_below (suc (suc (suc i))) j hi hj ne e = absurd (omega arith)
distinct_below zero (suc (suc (suc j))) hi hj ne e = absurd (omega arith)
distinct_below (suc zero) (suc (suc (suc j))) hi hj ne e = absurd (omega arith)
distinct_below (suc (suc zero)) (suc (suc (suc j))) hi hj ne e = absurd (omega arith)

variances_below :
    (j : ℕ)
    → j < 3
    → IsS16
        (record_at sample_table.records
          j).announce.grandmaster_clock_quality.offset_scaled_log_variance
variances_below zero h = omega arith
variances_below (suc zero) h = omega arith
variances_below (suc (suc zero)) h = omega arith
variances_below (suc (suc (suc j))) h = absurd (omega arith)

bmc_best_is_worst_example :
    (bmc_best sample_clock < 3)
    × ((j : ℕ)
        → j < 3
        → j ≢ bmc_best sample_clock
        → compare_at sample_identity sample_table.records j (bmc_best sample_clock) ≡ a_better)
bmc_best_is_worst_example =
    bmc_best_is_worst sample_clock (omega arith)
      (record { variances = variances_below; distinct = distinct_below })

bmc-Agrees_example :
    Agrees
      (with_best sample_clock)
      (bmc sample_clock).0
      (best_record sample_clock).header
      (best_record sample_clock).announce
      (bmc sample_clock).1
bmc-Agrees_example = bmc-Agrees sample_clock

sample-InBounds : InBounds sample_table
sample-InBounds = omega arith

IsUnknown-below : IsUnknown sample_header sample_table
unfolding is_same_port_identity memcmp
IsUnknown-below zero h = refl
IsUnknown-below (suc zero) h = refl
IsUnknown-below (suc (suc zero)) h = refl
IsUnknown-below (suc (suc (suc zero))) h = refl
IsUnknown-below (suc (suc (suc (suc zero)))) h = refl
IsUnknown-below (suc (suc (suc (suc (suc j))))) h = absurd (omega arith)

add_foreign_ds_new_example :
    (record_at (add_foreign_ds sample_header (sample_announce 20 11) sample_table).records 3
      ≡ record {
        foreign_master_port_identity = sample_header.source_port_identity;
        foreign_master_announce_messages = pos 0;
        announce = sample_announce 20 11;
        header = sample_header;
      })
    × ((j : ℕ)
        → 3 ≢ j
        → record_at (add_foreign_ds sample_header (sample_announce 20 11) sample_table).records j
          ≡ record_at sample_table.records j)
    × ((add_foreign_ds sample_header (sample_announce 20 11) sample_table).count ≡ min (3 + 1) 5)
    × ((add_foreign_ds sample_header (sample_announce 20 11) sample_table).i ≡ (3 + 1) % 5)
add_foreign_ds_new_example =
    add_foreign_ds_new sample_header (sample_announce 20 11) sample_table sample-InBounds
      IsUnknown-below

abbrev again : MsgHeader
again = record zero_header {
  source_port_identity = (sample_record 20 11).foreign_master_port_identity;
}

known_again :
    is_same_port_identity again.source_port_identity
      (record_at sample_table.records 0).foreign_master_port_identity
    ≡ true
unfolding is_same_port_identity memcmp
known_again = refl

add_foreign_ds_duplicates_example :
    let after = add_foreign_ds again (sample_announce 20 11) sample_table in
    (record_at after.records 0 ≡ record {
      foreign_master_port_identity =
          (record_at sample_table.records 0).foreign_master_port_identity;
      foreign_master_announce_messages =
          s16 ((record_at sample_table.records 0).foreign_master_announce_messages +ℤ pos 1);
      announce = sample_announce 20 11;
      header = again;
    })
    × (record_at after.records 3 ≡ record {
      foreign_master_port_identity = again.source_port_identity;
      foreign_master_announce_messages = pos 0;
      announce = sample_announce 20 11;
      header = again;
    })
    × ((j : ℕ) → 3 ≢ j → 0 ≢ j → record_at after.records j ≡ record_at sample_table.records j)
    × (after.count ≡ min (3 + 1) 5)
add_foreign_ds_duplicates_example =
    add_foreign_ds_duplicates again (sample_announce 20 11) sample_table sample-InBounds
      (omega arith) (λ e. omega arith) known_again

-- ===== src/Bmc/Decision/State.antt =====
-- What `bmcStateDecision` and `bmc` of src/bmc.c recommend, and the data sets that go with it.
use ptpd_lwip.Bmc.Foreign.{record_at}
use ptpd_lwip.Bmc.Compare.{data_set_comparison}
use ptpd_lwip.Types.DataSet.{ForeignMasterRecord}
use ptpd_lwip.Bmc.Foreign.Table.{InBounds}
use ptpd_lwip.Prelude.Word.{s16}
use ptpd_lwip.Types.Time.{zero_time}
use ptpd_lwip.Prelude.Int.{ℤ, pos, ◌+ℤ◌, ltb_ℤ}
use ptpd_lwip.Prelude.{
  ◌≡◌, ◌⊎◌, arith, ◌<◌, ◌≤◌, ◌==◌, Bool-cases, List, ◌&&◌, ℕ, ◌-◌, ◌+◌, inl, suc, zero, inr,
}
use ptpd_lwip.Types.Opt.{PortState, listening, master, passive, slave, same_state}
use ptpd_lwip.Bmc.Update.{m1, s1, p1}
use ptpd_lwip.Bmc.Decision.{recommend, copy_d0, bmc_state_decision, bmc_best, bmc, find_best}
use ptpd_lwip.Types.Message.{MsgHeader, MsgAnnounce, ClockIdentity}
use ptpd_lwip.Types.Clock.{PtpClock}

-- The data sets of `after` are those that the recommended state calls for, where `before` heard the
-- Announce message `a` with header `h` from the best foreign master.
pub record Agrees (before after : PtpClock) (h : MsgHeader) (a : MsgAnnounce) (st : PortState)
    : Type 0 where
  pub possible : (st ≡ listening) ⊎ (st ≡ master) ⊎ (st ≡ passive) ⊎ (st ≡ slave)
  pub master_is_own :
      st ≡ master
      → (after.parent_ds.grandmaster_identity ≡ before.default_ds.clock_identity)
        × (after.current_ds.steps_removed ≡ pos 0)
        × (after.current_ds.offset_from_master ≡ zero_time)
  pub passive_keeps :
      st ≡ passive
      → (before.default_ds.clock_quality.clock_class < 128)
        × (after.parent_ds ≡ before.parent_ds)
        × (after.current_ds ≡ before.current_ds)
  pub slave_follows :
      st ≡ slave
      → (128 ≤ before.default_ds.clock_quality.clock_class)
        × (after.parent_ds.parent_port_identity ≡ h.source_port_identity)
        × (after.parent_ds.grandmaster_identity ≡ a.grandmaster_identity)
        × (after.current_ds.steps_removed ≡ s16 (a.steps_removed +ℤ pos 1))
  pub listening_waits : st ≡ listening → (before.foreign_master_ds.count ≡ 0) × (after ≡ before)
  pub local_kept :
      (after.default_ds ≡ before.default_ds)
      × (after.port_ds ≡ before.port_ds)
      × (after.foreign_master_ds ≡ before.foreign_master_ds)

recommend-Agrees :
    (comp : ℤ) (c : PtpClock) (h : MsgHeader) (a : MsgAnnounce)
    → Agrees c (recommend comp (copy_d0 c) h a).0 h a (recommend comp (copy_d0 c) h a).1
unfolding recommend copy_d0 m1 s1 p1
recommend-Agrees comp c h a = ground arith

waiting-Agrees :
    (c : PtpClock) (h : MsgHeader) (a : MsgAnnounce)
    → c.foreign_master_ds.count ≡ 0
    → Agrees c c h a listening
waiting-Agrees c h a e = ground arith

bmc_state_decision-Agrees :
    (c : PtpClock) (h : MsgHeader) (a : MsgAnnounce)
    → Agrees c (bmc_state_decision c h a).0 h a (bmc_state_decision c h a).1
unfolding bmc_state_decision
bmc_state_decision-Agrees c h a =
    elim (Bool-cases
      ((c.foreign_master_ds.count == 0) && same_state c.port_ds.port_state listening)) [
        | inl wait ↦ rw wait (waiting-Agrees c h a (ground arith))
        | inr heard ↦ rw heard (recommend-Agrees _ c h a)
      ]

-- The clock with the choice of `bmc` stored.
abbrev pub with_best : PtpClock → PtpClock
with_best c = record c { foreign_master_ds = record (c.foreign_master_ds) { best = bmc_best c } }

-- The record that `bmc` chooses.
abbrev pub best_record : PtpClock → ForeignMasterRecord
best_record c = record_at c.foreign_master_ds.records (bmc_best c)

-- The state that `bmc` recommends and the data sets that it leaves agree: a master names itself the
-- grandmaster at distance 0 with no offset, a slave follows the sender of the chosen record one
-- step further, a passive port keeps its parent and current data sets, and a port told to go on
-- listening has heard nobody and keeps all. A slave is of class 128 or above and a passive port is
-- below. The default, port and foreign master data sets stay, but for the choice itself.
pub bmc-Agrees :
    (c : PtpClock)
    → Agrees (with_best c) (bmc c).0 (best_record c).header (best_record c).announce (bmc c).1
unfolding bmc
bmc-Agrees c =
    bmc_state_decision-Agrees (with_best c) (best_record c).header (best_record c).announce

find_best-lt :
    (own : ClockIdentity) (records : List ForeignMasterRecord) (left i best : ℕ)
    → best < i
    → find_best own records left i best < i + left
unfolding find_best
find_best-lt own records zero i best h = omega arith
find_best-lt own records (suc left) i best h =
    elim (Bool-cases (
      ltb_ℤ
        (data_set_comparison own (record_at records i).header (record_at records i).announce
          (record_at records best).header (record_at records best).announce)
        (pos 0))) [
          | inl less ↦
              rw less (omega (arith, find_best-lt own records left (i + 1) i (omega arith)))
          | inr more ↦
              rw more (omega (arith, find_best-lt own records left (i + 1) best (omega arith)))
        ]

bmc_best-lt :
    (c : PtpClock) → InBounds c.foreign_master_ds → bmc_best c < c.foreign_master_ds.capacity
unfolding bmc_best
bmc_best-lt c v = omega (
  arith,
  find_best-lt c.port_ds.port_identity.clock_identity c.foreign_master_ds.records
      (c.foreign_master_ds.count - 1) 1 0 (omega arith),
)

-- `bmc` keeps the indices of the table of foreign masters within its array, if they are within it
-- before.
pub bmc-InBounds :
    (c : PtpClock) → InBounds c.foreign_master_ds → InBounds (bmc c).0.foreign_master_ds
bmc-InBounds c v = rw (bmc-Agrees c).local_kept.2 (record {
  size = v.size;
  count_in = v.count_in;
  next_in = v.next_in;
  best_in = bmc_best-lt c v;
})

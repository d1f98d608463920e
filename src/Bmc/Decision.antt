-- ===== src/Bmc/Decision.antt =====
-- `bmcStateDecision` (figure 26 of the standard) and `bmc` of src/bmc.c.
pub mod Choice
pub mod State
use ptpd_lwip.Bmc.Compare.{data_set_comparison, a_better}
use ptpd_lwip.Types.DataSet.{ForeignMasterRecord}
use ptpd_lwip.Prelude.Int.{ℤ, eqb_ℤ, ltb_ℤ, pos}
use ptpd_lwip.Bmc.Foreign.{record_at}
use ptpd_lwip.Prelude.{ℕ, List, ◌-◌, if◌then◌else◌, ◌==◌, suc, ltb, ◌+◌, ◌&&◌, zero}
use ptpd_lwip.Types.Opt.{PortState, same_state, listening, master, passive, slave}
use ptpd_lwip.Types.Message.{MsgHeader, ClockIdentity, MsgAnnounce}
use ptpd_lwip.Bmc.Update.{p1, copy_d0_header, copy_d0_announce, m1, s1}
use ptpd_lwip.Types.Clock.{PtpClock, MsgTmp}

-- The stores of `copyD0` into the buffers of the clock.
unfoldable pub copy_d0 : PtpClock → PtpClock
unfolding copy_d0_header copy_d0_announce
copy_d0 c = record c {
  msg_tmp_header = copy_d0_header c c.msg_tmp_header;
  msg_tmp = record (c.msg_tmp) { announce = copy_d0_announce c c.msg_tmp.announce };
}

-- The last `if`, after the comparison `comp`. Returns the clock and the recommended state.
unfoldable pub recommend : ℤ → PtpClock → MsgHeader → MsgAnnounce → PtpClock × PortState
unfolding p1
recommend comp c header announce =
    if ltb c.default_ds.clock_quality.clock_class 128
    then (if eqb_ℤ a_better comp then (m1 c, master) else (p1 c, passive))
    else if eqb_ℤ a_better comp
    then (m1 c, master)
    else (s1 c header announce, slave)

unfoldable pub bmc_state_decision : PtpClock → MsgHeader → MsgAnnounce → PtpClock × PortState
bmc_state_decision c header announce =
    let d = copy_d0 c in
    let comp =
      data_set_comparison d.port_ds.port_identity.clock_identity d.msg_tmp_header d.msg_tmp.announce
        header announce in
    if (c.foreign_master_ds.count == 0) && same_state c.port_ds.port_state listening
    then (c, listening)
    else recommend comp d header announce

-- The loop at `i`, with `left` rounds to go.
find_best : ClockIdentity → List ForeignMasterRecord → ℕ → ℕ → ℕ → ℕ
find_best own records zero i best = best
find_best own records (suc left) i best =
    let ri = record_at records i in
    let rb = record_at records best in
    find_best own records left (i + 1) (
      if ltb_ℤ (data_set_comparison own ri.header ri.announce rb.header rb.announce) (pos 0)
      then i
      else best)

unfoldable pub bmc_best : PtpClock → ℕ
unfolding find_best
bmc_best c =
    find_best c.port_ds.port_identity.clock_identity c.foreign_master_ds.records
      (c.foreign_master_ds.count - 1) 1 0

unfoldable pub bmc : PtpClock → PtpClock × PortState
bmc c =
    let best = bmc_best c in
    let r = record_at c.foreign_master_ds.records best in
    bmc_state_decision
      (record c { foreign_master_ds = record (c.foreign_master_ds) { best = best } }) r.header
      r.announce

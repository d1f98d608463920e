-- ===== src/Bmc/Foreign.antt =====
-- `isSamePortIdentity` and `addForeign` of src/bmc.c: the table of foreign masters.
pub mod Table
use ptpd_lwip.Types.Zero.{zero_record}
use ptpd_lwip.Types.Time.{timestamp}
use ptpd_lwip.Prelude.Word.{s16}
use ptpd_lwip.Prelude.Int.{pos, eqb_ℤ, ◌+ℤ◌}
use ptpd_lwip.Prelude.{List, ℕ, Bool, get_or, set, suc, ◌+◌, if◌then◌else◌, ◌&&◌, ◌%◌, ltb, zero}
use ptpd_lwip.Types.DataSet.{ForeignMasterRecord, ForeignMasterDs}
use ptpd_lwip.Bmc.Memory.{memcmp}
use ptpd_lwip.Types.Message.{MsgAnnounce, PortIdentity, MsgHeader, ClockIdentity, octets}
use ptpd_lwip.Types.Clock.{PtpClock}

unfoldable pub is_same_port_identity : PortIdentity → PortIdentity → Bool
is_same_port_identity a b =
    eqb_ℤ (pos 0) (memcmp (octets a.clock_identity) (octets b.clock_identity))
    && eqb_ℤ a.port_number b.port_number

-- records[j]. Past the end, where no call of the code reads, it is a record of zeros.
abbrev pub record_at : List ForeignMasterRecord → ℕ → ForeignMasterRecord
record_at records j = get_or records j zero_record

-- The stores on a master that is found at `j`.
refresh : MsgHeader → MsgAnnounce → ForeignMasterRecord → ForeignMasterRecord
refresh header announce r = record r {
  foreign_master_announce_messages = s16 (r.foreign_master_announce_messages +ℤ pos 1);
  header = header;
  announce = announce;
}

-- The search, with `left` rounds to go. A master that is found is refreshed and ends it; `found`
-- is set to false there too, so nothing tells the two ends apart.
update_known :
    MsgHeader → MsgAnnounce → ℕ → ℕ → ℕ → List ForeignMasterRecord → List ForeignMasterRecord
update_known header announce zero count j records = records
update_known header announce (suc left) count j records =
    let on = update_known header announce left count ((j + 1) % count) records in
    if is_same_port_identity header.source_port_identity
      (record_at records j).foreign_master_port_identity
    then set records j (refresh header announce (record_at records j))
    else on

-- The new record: `found` is false on every path, so it is always made.
new_foreign : MsgHeader → MsgAnnounce → ForeignMasterRecord
new_foreign header announce = record {
  foreign_master_port_identity = header.source_port_identity;
  foreign_master_announce_messages = pos 0;
  announce = announce;
  header = header;
}

append_foreign : MsgHeader → MsgAnnounce → ForeignMasterDs → ForeignMasterDs
append_foreign header announce f = record {
  records = set f.records f.i (new_foreign header announce);
  count = if ltb f.count f.capacity then f.count + 1 else f.count;
  capacity = f.capacity;
  i = (f.i + 1) % f.capacity;
  best = f.best;
}

unfoldable pub add_foreign_ds : MsgHeader → MsgAnnounce → ForeignMasterDs → ForeignMasterDs
unfolding append_foreign update_known refresh new_foreign
add_foreign_ds header announce f =
    append_foreign header announce
      (record f { records = update_known header announce f.count f.count f.best f.records })

unfoldable pub add_foreign : PtpClock → MsgHeader → MsgAnnounce → PtpClock
add_foreign c header announce = record c {
  foreign_master_ds = add_foreign_ds header announce c.foreign_master_ds;
}

-- ===== src/Bmc/Foreign/Table.antt =====
-- The table of foreign masters under `addForeign` of src/bmc.c.
use ptpd_lwip.Prelude.Word.{s16}
use ptpd_lwip.Bmc.Memory.Laws.{memcmp-eq, memcmp_self}
use ptpd_lwip.Prelude.Int.{pos, ◌+ℤ◌}
use ptpd_lwip.Prelude.{
  length, ◌≡◌, length-set, ◌≤◌, List, ℕ, ◌∙◌, ◌<◌, ◌≢◌, suc, arith, Bool-cases, true, false, ◌+◌,
  inl, inr, ◌%◌, zero, refl, set, get_or-set_self, ◌↔◌, get_or-set_ne,
}
use ptpd_lwip.Types.Message.{MsgHeader, MsgAnnounce, PortIdentity, ClockIdentity, octets}
use ptpd_lwip.Types.DataSet.{ForeignMasterDs, ForeignMasterRecord}
use ptpd_lwip.Bmc.Foreign.{
  update_known, add_foreign_ds, append_foreign, new_foreign, refresh, is_same_port_identity,
  record_at, zero_record,
}
use Prim.Native.Nat.{min}

-- Every index that the code uses lies within the array.
pub record InBounds (f : ForeignMasterDs) : Type 0 where
  pub size : length f.records ≡ f.capacity
  pub count_in : f.count ≤ f.capacity
  pub next_in : f.i < f.capacity
  pub best_in : f.best < f.capacity

length-update_known :
    (h : MsgHeader) (a : MsgAnnounce) (left count j : ℕ) (records : List ForeignMasterRecord)
    → length (update_known h a left count j records) ≡ length records
unfolding update_known
length-update_known h a zero count j records = refl
length-update_known h a (suc left) count j records =
    elim (Bool-cases (
      is_same_port_identity h.source_port_identity
        (record_at records j).foreign_master_port_identity)) [
          | inl same ↦ rw same (length-set records j (refresh h a (record_at records j)))
          | inr other ↦ rw other (length-update_known h a left count ((j + 1) % count) records)
        ]

-- `addForeign` keeps the indices of the table within its array, if they are within it before.
pub add_foreign_ds-InBounds :
    (h : MsgHeader) (a : MsgAnnounce) (f : ForeignMasterDs)
    → InBounds f
    → InBounds (add_foreign_ds h a f)
unfolding add_foreign_ds append_foreign
add_foreign_ds-InBounds h a f v = record {
  size =
      length-set (update_known h a f.count f.count f.best f.records) f.i (new_foreign h a)
      ∙ length-update_known h a f.count f.count f.best f.records
      ∙ v.size;
  count_in = ground arith;
  next_in = ground arith;
  best_in = v.best_in;
}

-- No record of the table is of the sender of `h`.
abbrev pub IsUnknown : MsgHeader → ForeignMasterDs → Type 0
IsUnknown h f =
    (j : ℕ)
    → j < f.capacity
    → is_same_port_identity h.source_port_identity
        (record_at f.records j).foreign_master_port_identity
      ≡ false

update_known-unknown :
    (h : MsgHeader) (a : MsgAnnounce) (f : ForeignMasterDs)
    → IsUnknown h f
    → f.count ≤ f.capacity
    → (left j : ℕ) → left ≤ f.count
    → j < f.capacity
    → update_known h a left f.count j f.records ≡ f.records
unfolding update_known
update_known-unknown h a f new le zero j hl hj = refl
update_known-unknown h a f new le (suc left) j hl hj =
    rw (new j hj)
      (update_known-unknown h a f new le left ((j + 1) % f.count) (omega arith) (omega arith))

update_known_first :
    (h : MsgHeader) (a : MsgAnnounce) (records : List ForeignMasterRecord) (left count j : ℕ)
    → 0 < left
    → is_same_port_identity h.source_port_identity
        (record_at records j).foreign_master_port_identity
      ≡ true
    → update_known h a left count j records ≡ set records j (refresh h a (record_at records j))
unfolding update_known
update_known_first h a records zero count j lt e = absurd (omega arith)
update_known_first h a records (suc left) count j lt e = rw e

-- An Announce message of a sender that the table does not hold is stored at the next place, with
-- its identity and no messages counted. No other record changes, the table grows by one until it
-- is full, and the next place moves on round the array.
pub add_foreign_ds_new :
    (h : MsgHeader) (a : MsgAnnounce) (f : ForeignMasterDs)
    → InBounds f
    → IsUnknown h f
    → (record_at (add_foreign_ds h a f).records f.i ≡ record {
      foreign_master_port_identity = h.source_port_identity;
      foreign_master_announce_messages = pos 0;
      announce = a;
      header = h;
    })
      × ((j : ℕ) → f.i ≢ j → record_at (add_foreign_ds h a f).records j ≡ record_at f.records j)
      × ((add_foreign_ds h a f).count ≡ min (f.count + 1) f.capacity)
      × ((add_foreign_ds h a f).i ≡ (f.i + 1) % f.capacity)
unfolding add_foreign_ds append_foreign new_foreign
add_foreign_ds_new h a f v new =
    rw (update_known-unknown h a f new v.count_in f.count f.best (omega arith) v.best_in) (
      get_or-set_self f.records f.i _ zero_record (omega arith),
      λ j ne. get_or-set_ne f.records f.i j _ zero_record ne,
      ground arith,
      refl,
    )

-- A sender that the table already holds, as the best master, is stored a second time whenever the
-- next place is another one: its record gets the new message, with one more counted (as a number of
-- 16 bits), and a new record with the same identity and message and none counted is made beside it.
-- The other records stay, and the table grows by one until it is full.
pub add_foreign_ds_duplicates :
    (h : MsgHeader) (a : MsgAnnounce) (f : ForeignMasterDs)
    → InBounds f
    → 0 < f.count
    → f.i ≢ f.best
    → is_same_port_identity h.source_port_identity
        (record_at f.records f.best).foreign_master_port_identity
      ≡ true
    → (record_at (add_foreign_ds h a f).records f.best ≡ record {
      foreign_master_port_identity = (record_at f.records f.best).foreign_master_port_identity;
      foreign_master_announce_messages =
          s16 ((record_at f.records f.best).foreign_master_announce_messages +ℤ pos 1);
      announce = a;
      header = h;
    })
      × (record_at (add_foreign_ds h a f).records f.i ≡ record {
        foreign_master_port_identity = h.source_port_identity;
        foreign_master_announce_messages = pos 0;
        announce = a;
        header = h;
      })
      × ((j : ℕ)
          → f.i ≢ j
          → f.best ≢ j
          → record_at (add_foreign_ds h a f).records j ≡ record_at f.records j)
      × ((add_foreign_ds h a f).count ≡ min (f.count + 1) f.capacity)
unfolding add_foreign_ds append_foreign new_foreign refresh
add_foreign_ds_duplicates h a f v some_known ne known =
    rw (update_known_first h a f.records f.count f.count f.best some_known known) (
      get_or-set_ne refreshed f.i f.best (new_foreign h a) zero_record ne
          ∙ get_or-set_self f.records f.best fresh zero_record (omega arith),
      get_or-set_self refreshed f.i (new_foreign h a) zero_record
          (rw (length-set f.records f.best fresh) (omega arith)),
      λ j other best.
          get_or-set_ne refreshed f.i j (new_foreign h a) zero_record other
          ∙ get_or-set_ne f.records f.best j fresh zero_record best,
      ground arith,
    )
  where
    fresh : ForeignMasterRecord
    fresh = refresh h a (record_at f.records f.best)

    refreshed : List ForeignMasterRecord
    refreshed = set f.records f.best fresh

octets-injective : (x y : ClockIdentity) → octets x ≡ octets y → x ≡ y
octets-injective x y e = cc

-- `isSamePortIdentity` holds of equal port identities and of no others.
pub is_same_port_identity_iff : (a b : PortIdentity) → (is_same_port_identity a b ≡ true) ↔ (a ≡ b)
unfolding is_same_port_identity
is_same_port_identity_iff a b = (
  λ e.
      let same : octets a.clock_identity ≡ octets b.clock_identity =
        memcmp-eq _ _ refl (ground arith) in
      let port : a.port_number ≡ b.port_number = ground arith in
      λ i. record {
        clock_identity = octets-injective a.clock_identity b.clock_identity same i;
        port_number = port i;
      },
  λ e. rw e (rw (memcmp_self (octets b.clock_identity)) (ground arith)),
)

-- ===== src/Bmc/Spares.antt =====
-- What functions that do not decide on states may do to a clock and to its table of foreign masters
-- of src/bmc.c.
use ptpd_lwip.Prelude.{◌≡◌, ◌∙◌, Bool, if◌then◌else◌, true, false, length, ◌<◌}
use ptpd_lwip.Types.Clock.{PtpClock}
use ptpd_lwip.Bmc.Foreign.Table.{InBounds}

-- The indices of the table of foreign masters lie within its array, whose size is that of the options.
pub record IsSized (c : PtpClock) : Type 0 where
  pub bounds : InBounds c.foreign_master_ds
  pub capacity : c.foreign_master_ds.capacity ≡ c.rt_opts.max_foreign_records

-- What `initData` needs of the table, which sets the capacity and the count: the array has the size of
-- the options, and the two indices that it leaves alone lie within it.
pub record IsRoomy (c : PtpClock) : Type 0 where
  pub size : length c.foreign_master_ds.records ≡ c.rt_opts.max_foreign_records
  pub next_in : c.foreign_master_ds.i < c.rt_opts.max_foreign_records
  pub best_in : c.foreign_master_ds.best < c.rt_opts.max_foreign_records

pub sized-IsRoomy : (c : PtpClock) → IsSized c → IsRoomy c
sized-IsRoomy c v = record {
  size = v.bounds.size ∙ v.capacity;
  next_in = rw (← v.capacity) v.bounds.next_in;
  best_in = rw (← v.capacity) v.bounds.best_in;
}

-- The second clock has the state, the delay mechanism, the default data set, the recommended state
-- and the options of the first, and its table of foreign masters is in bounds if that of the first
-- is.
pub record Spares (c d : PtpClock) : Type 0 where
  pub state : d.port_ds.port_state ≡ c.port_ds.port_state
  pub delay : d.port_ds.delay_mechanism ≡ c.port_ds.delay_mechanism
  pub default : d.default_ds ≡ c.default_ds
  pub recommended : d.recommended_state ≡ c.recommended_state
  pub options : d.rt_opts ≡ c.rt_opts
  pub table : IsSized c → IsSized d

pub spared :
    {c d : PtpClock}
    → d.port_ds.port_state ≡ c.port_ds.port_state
    → d.port_ds.delay_mechanism ≡ c.port_ds.delay_mechanism
    → d.default_ds ≡ c.default_ds
    → d.recommended_state ≡ c.recommended_state
    → d.rt_opts ≡ c.rt_opts
    → d.foreign_master_ds ≡ c.foreign_master_ds
    → Spares c d
spared state delay default recommended options same = record {
  state = state;
  delay = delay;
  default = default;
  recommended = recommended;
  options = options;
  table = λ v. record { bounds = rw same v.bounds; capacity = rw (same, options) v.capacity };
}

pub Spares-trans : {c d e : PtpClock} → Spares c d → Spares d e → Spares c e
Spares-trans m n = record {
  state = n.state ∙ m.state;
  delay = n.delay ∙ m.delay;
  default = n.default ∙ m.default;
  recommended = n.recommended ∙ m.recommended;
  options = n.options ∙ m.options;
  table = λ v. n.table (m.table v);
}

-- A test on two clocks.
pub chosen :
    {c : PtpClock} (b : Bool) {x y : PtpClock}
    → Spares c x
    → Spares c y
    → Spares c (if b then x else y)
chosen true m n = m
chosen false m n = n

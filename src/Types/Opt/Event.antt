-- ===== src/Types/Opt/Event.antt =====
-- Stack events, an enumeration of src/def/opt.h.
use ptpd_lwip.Prelude.{ℕ}

abbrev pub state_decision_event : ℕ
state_decision_event = 0x40

abbrev pub synchronization_fault : ℕ
synchronization_fault = 0x200

abbrev pub master_clock_selected : ℕ
master_clock_selected = 0x400

abbrev pub master_clock_changed : ℕ
master_clock_changed = 0x800

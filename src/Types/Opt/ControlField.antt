-- ===== src/Types/Opt/ControlField.antt =====
-- PTP messages control field (Table 23), an enumeration of src/def/opt.h.
use ptpd_lwip.Prelude.{ℕ}

abbrev pub sync : ℕ
sync = 0

abbrev pub delay_req : ℕ
delay_req = 1

abbrev pub follow_up : ℕ
follow_up = 2

abbrev pub delay_resp : ℕ
delay_resp = 3

abbrev pub management : ℕ
management = 4

abbrev pub other : ℕ
other = 5

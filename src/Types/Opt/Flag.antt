-- ===== src/Types/Opt/Flag.antt =====
-- Message flags, two enumerations of src/def/opt.h.
use ptpd_lwip.Prelude.{ℕ}

abbrev pub two_step : ℕ
two_step = 0x02

abbrev pub leap61 : ℕ
leap61 = 0x01

abbrev pub leap59 : ℕ
leap59 = 0x02

abbrev pub utc_offset_valid : ℕ
utc_offset_valid = 0x04

abbrev pub ptp_timescale : ℕ
ptp_timescale = 0x08

abbrev pub time_traceable : ℕ
time_traceable = 0x10

abbrev pub frequency_traceable : ℕ
frequency_traceable = 0x20

-- ===== src/Types/Opt/Length.antt =====
-- Lengths of the messages, in octets (src/def/opt.h).
use ptpd_lwip.Prelude.{ℕ}

abbrev pub header : ℕ
header = 34

abbrev pub announce : ℕ
announce = 64

abbrev pub sync : ℕ
sync = 44

abbrev pub follow_up : ℕ
follow_up = 44

abbrev pub pdelay_req : ℕ
pdelay_req = 54

abbrev pub delay_req : ℕ
delay_req = 44

abbrev pub delay_resp : ℕ
delay_resp = 54

abbrev pub pdelay_resp : ℕ
pdelay_resp = 54

abbrev pub pdelay_resp_follow_up : ℕ
pdelay_resp_follow_up = 54

abbrev pub packet : ℕ
packet = 300

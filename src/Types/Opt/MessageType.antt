-- ===== src/Types/Opt/MessageType.antt =====
-- PTP messages (Table 19), an enumeration of src/def/opt.h. The type of a message is a nibble.
use ptpd_lwip.Prelude.{ℕ}

abbrev pub sync : ℕ
sync = 0

abbrev pub delay_req : ℕ
delay_req = 1

abbrev pub pdelay_req : ℕ
pdelay_req = 2

abbrev pub pdelay_resp : ℕ
pdelay_resp = 3

abbrev pub follow_up : ℕ
follow_up = 8

abbrev pub delay_resp : ℕ
delay_resp = 9

abbrev pub pdelay_resp_follow_up : ℕ
pdelay_resp_follow_up = 10

abbrev pub announce : ℕ
announce = 11

abbrev pub signaling : ℕ
signaling = 12

abbrev pub management : ℕ
management = 13

-- ===== src/Bmc/Compare.antt =====
-- `bmcDataSetComparison` of src/bmc.c (figures 27 and 28 of the standard).
pub mod Rank
pub mod Order
use ptpd_lwip.Bmc.Memory.{memcmp}
use ptpd_lwip.Prelude.{if◌then◌else◌}
use ptpd_lwip.Prelude.Int.{ℤ, pos, negsuc, ltb_ℤ, eqb_ℤ, ◌+ℤ◌}
use ptpd_lwip.Types.Message.{ClockIdentity, MsgAnnounce, MsgHeader, octets}

abbrev pub a_better : ℤ
a_better = pos 1

abbrev pub b_better : ℤ
b_better = negsuc 0

-- ERROR_1 and ERROR_2 are 0 and -0.
abbrev pub error : ℤ
error = pos 0

-- The macro COMPARE_AB_RETURN_BETTER on a field, with what follows it.
abbrev pub return_better : ℤ → ℤ → ℤ → ℤ
return_better a b next = if ltb_ℤ b a then b_better else if ltb_ℤ a b then a_better else next

-- The five ways in which two distances compare, in the order in which they are tested.
unfoldable pub by_distance : ℤ → ℤ → ℤ → ℤ → ℤ → ℤ → ℤ → ℤ
by_distance x y far_a far_b near_a near_b level =
    if ltb_ℤ (y +ℤ pos 1) x
    then far_a
    else if ltb_ℤ (x +ℤ pos 1) y
    then far_b
    else if ltb_ℤ y x
    then near_a
    else if ltb_ℤ x y
    then near_b
    else level

-- `comp > 0`, `comp < 0` and otherwise.
abbrev pub by_sign : ℤ → ℤ → ℤ → ℤ
by_sign comp above below =
    if ltb_ℤ (pos 0) comp then above else if ltb_ℤ comp (pos 0) then below else error

-- Part 2: both announce the same grandmaster. `own` is the identity of the receiving port.
unfoldable pub compare_topology :
    ClockIdentity → MsgHeader → MsgAnnounce → MsgHeader → MsgAnnounce → ℤ
compare_topology own header_a a header_b b =
    let sender_a = octets header_a.source_port_identity.clock_identity in
    let sender_b = octets header_b.source_port_identity.clock_identity in
    by_distance a.steps_removed b.steps_removed b_better a_better
      (by_sign (memcmp sender_a (octets own)) b_better b_better)
      (by_sign (memcmp sender_b (octets own)) a_better a_better)
      (by_sign (memcmp sender_a sender_b) b_better a_better)

-- Part 1: the grandmasters differ, and `gm` is the comparison of their identities.
unfoldable pub compare_grandmasters : ℤ → ℤ → MsgAnnounce → MsgAnnounce → ℤ
compare_grandmasters gm topology a b =
    let qa = a.grandmaster_clock_quality in
    let qb = b.grandmaster_clock_quality in
    let by_identity =
      if ltb_ℤ (pos 0) gm then b_better else if ltb_ℤ gm (pos 0) then a_better else topology in
    return_better (pos a.grandmaster_priority1) (pos b.grandmaster_priority1) (
      return_better (pos qa.clock_class) (pos qb.clock_class) (
        return_better (pos qa.clock_accuracy) (pos qb.clock_accuracy) (
          return_better qa.offset_scaled_log_variance qb.offset_scaled_log_variance (
            return_better (pos a.grandmaster_priority2) (pos b.grandmaster_priority2)
              by_identity))))

unfoldable pub data_set_comparison :
    ClockIdentity → MsgHeader → MsgAnnounce → MsgHeader → MsgAnnounce → ℤ
data_set_comparison own header_a a header_b b =
    let gm = memcmp (octets a.grandmaster_identity) (octets b.grandmaster_identity) in
    let topology = compare_topology own header_a a header_b b in
    if eqb_ℤ (pos 0) gm then topology else compare_grandmasters gm topology a b

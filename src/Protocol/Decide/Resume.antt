-- ===== src/Protocol/Decide/Resume.antt =====
-- What the first two `switch`es of `doState` in src/protocol.c make of a port that is starting or
-- has a fault.
use ptpd_lwip.Protocol.Timers.Agree.{state_after}
use ptpd_lwip.Protocol.Timers.Agree.Kept.{to_state-kept}
use ptpd_lwip.Prelude.{◌≡◌, false, refl, ◌∙◌, ap, Bool-cases, ◌&&◌, inl, arith, inr}
use ptpd_lwip.Types.System.{System, Port}
use ptpd_lwip.Protocol.Decide.{
  decide, follow, follow_state, follow_master, follow_slave, follow_other, is_deciding,
}
use ptpd_lwip.Types.Opt.{
  initializing, faulty, disabled, listening, pre_master, master, passive, uncalibrated, slave,
  PortState, same_state, get_flag,
}
use ptpd_lwip.Types.Opt.Event

abbrev pub state : System → PortState
state s = s.clock.port_ds.port_state

-- In a state in which no decision is made, `decide` leaves the state and the recommendation.
pub decide-rests :
    (s : System) (st : PortState)
    → state s ≡ st
    → is_deciding st ≡ false
    → (state (decide s) ≡ st) × ((decide s).clock.recommended_state ≡ s.clock.recommended_state)
decide-rests s st at rests =
    let due = get_flag s.clock.events Event.state_decision_event in
    let never : (is_deciding (state s) && due) ≡ false = rw (at, rests) refl in
    unfold decide in rw never (at, refl)

-- The state that a faulty port resumes on a recommendation.
abbrev pub resumed : PortState → PortState
resumed listening = listening
resumed master = master
resumed passive = passive
resumed slave = uncalibrated
resumed st = faulty

follow_other-resumes :
    (p : Port) (st : PortState) (s : System)
    → state s ≡ faulty
    → same_state faulty st ≡ false
    → state (follow_other p st s) ≡ state_after st
unfolding follow_other
follow_other-resumes p st s at apart = elim (Bool-cases (same_state (state s) st)) [
  | inl there ↦ absurd (ground (arith, rw at at there, apart))
  | inr away ↦ rw away (to_state-kept p st s).0
]

follow_master-resumes :
    (p : Port) (cur : PortState) (s : System)
    → cur ≡ faulty
    → state (follow_master p cur s) ≡ master
unfolding follow_master
follow_master-resumes p cur s at = rw (at, follow_master) (to_state-kept p pre_master s).0

follow_slave-resumes :
    (p : Port) (cur : PortState) (s : System)
    → cur ≡ faulty
    → state (follow_slave p cur s) ≡ uncalibrated
unfolding follow_slave
follow_slave-resumes p cur s at = rw (at, follow_slave) (to_state-kept p uncalibrated s).0

follow_state-resumes :
    (p : Port) (r : PortState) (s : System)
    → state s ≡ faulty
    → state (follow_state p r s) ≡ resumed r
unfolding follow_state
follow_state-resumes p listening s at = follow_other-resumes p listening s at refl
follow_state-resumes p passive s at = follow_other-resumes p passive s at refl
follow_state-resumes p master s at = follow_master-resumes p (state s) s at
follow_state-resumes p slave s at = follow_slave-resumes p (state s) s at
follow_state-resumes p initializing s at = at
follow_state-resumes p faulty s at = at
follow_state-resumes p disabled s at = at
follow_state-resumes p pre_master s at = at
follow_state-resumes p uncalibrated s at = at

-- A faulty port whose recommended state is LISTENING, MASTER, PASSIVE or SLAVE leaves FAULTY before
-- the case of FAULTY is reached, so it is not initialized again: for LISTENING, MASTER, PASSIVE and
-- UNCALIBRATED in this order. With any other recommended state it is still FAULTY then.
pub follow_resumes :
    (p : Port) (s : System)
    → state s ≡ faulty
    → state (follow p (decide s)) ≡ resumed s.clock.recommended_state
follow_resumes p s at =
    let (still, recommended) = decide-rests s faulty at refl in
    unfold follow in
    (follow_state-resumes p (decide s).clock.recommended_state (decide s) still
      ∙ ap resumed recommended)

pub follow_state-rests :
    (p : Port) (r : PortState) (s : System) → r ≡ initializing → follow_state p r s ≡ s
unfolding follow_state
follow_state-rests p r s e = rw (e, follow_state) refl

-- A port that starts is not moved before its case is reached.
pub follow_starts :
    (p : Port) (s : System)
    → state s ≡ initializing
    → s.clock.recommended_state ≡ initializing
    → (state (follow p (decide s)) ≡ initializing)
      × ((follow p (decide s)).clock.recommended_state ≡ initializing)
follow_starts p s at recommended =
    let (still, same) = decide-rests s initializing at refl in
    unfold follow in
    rw (follow_state-rests p (decide s).clock.recommended_state (decide s) (same ∙ recommended))
      (still, same ∙ recommended)

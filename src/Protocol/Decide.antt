-- ===== src/Protocol/Decide.antt =====
-- The first two `switch`es of `doState` in src/protocol.c: the state decision, and the change to the
-- state that it recommends.
pub mod Timed
pub mod Subordinate
pub mod Options
pub mod Resume
pub mod Started
use ptpd_lwip.Protocol.{to_state}
use ptpd_lwip.Bmc.Decision.{bmc}
use ptpd_lwip.Types.Opt.{
  PortState, master, passive, same_state, listening, clear_flag, get_flag, slave, uncalibrated,
  initializing, qualification_timeout, faulty, pre_master, disabled,
}
use ptpd_lwip.Types.System.{Port, System, on_clock, log, lwip_ptp_check_timer}
use ptpd_lwip.Prelude.{Bool, ℕ, false, ◌||◌, if◌then◌else◌, ◌==◌, true, ◌&&◌}
use ptpd_lwip.Types.Clock.{PtpClock}
use ptpd_lwip.Types.Opt.Event

abbrev pub clear_event : ℕ → System → System
clear_event mask s = on_clock (λ c. record c { events = clear_flag c.events mask }) s

-- The states in which decisions are made.
abbrev pub is_deciding : PortState → Bool
is_deciding initializing = false
is_deciding faulty = false
is_deciding disabled = false
is_deciding _ = true

-- The test for a clock that is never to be master.
abbrev pub is_slave_only : PtpClock → Bool
is_slave_only c = c.default_ds.slave_only || (c.default_ds.clock_quality.clock_class == 255)

-- The inner `switch`: a recommendation that a slave-only clock does not take.
restrict : Bool → PortState → PortState
restrict slave_only master = if slave_only then listening else master
restrict slave_only passive = if slave_only then listening else passive
restrict slave_only st = st

-- The state decision event.
decide_now : System → System
decide_now s =
    let (c, st) = bmc (clear_event Event.state_decision_event s).clock in
    record s { clock = record c { recommended_state = restrict (is_slave_only c) st } }

-- The first `switch`, with the line before it.
unfoldable pub decide : System → System
unfolding decide_now restrict
decide s =
    let quiet = on_clock (λ c. record c { message_activity = false }) s in
    if is_deciding quiet.clock.port_ds.port_state
      && get_flag quiet.clock.events Event.state_decision_event
    then decide_now quiet
    else quiet

-- The case of MASTER, by the state of the port.
follow_master : Port → PortState → System → System
follow_master p pre_master s =
    let checked = log (lwip_ptp_check_timer qualification_timeout) s in
    if p.expired s.calls qualification_timeout then to_state p master checked else checked
follow_master p master s = s
follow_master p cur s = to_state p pre_master s

-- `if (getFlag(events, mask)) { clearFlag(events, mask); ... }`
on_event : ℕ → (System → System) → System → System
on_event mask act s = if get_flag s.clock.events mask then act (clear_event mask s) else s

-- The case of SLAVE.
follow_slave : Port → PortState → System → System
follow_slave p uncalibrated s =
    on_event Event.master_clock_changed (λ r. r)
      (on_event Event.master_clock_selected (to_state p slave) s)
follow_slave p slave s =
    on_event Event.master_clock_changed (to_state p uncalibrated)
      (on_event Event.synchronization_fault (to_state p uncalibrated) s)
follow_slave p cur s = to_state p uncalibrated s

-- The cases of PASSIVE and LISTENING.
follow_other : Port → PortState → System → System
follow_other p st s = if same_state s.clock.port_ds.port_state st then s else to_state p st s

-- The second `switch`, by the recommended state.
pub follow_state : Port → PortState → System → System
follow_state p master s = follow_master p s.clock.port_ds.port_state s
follow_state p passive s = follow_other p passive s
follow_state p slave s = follow_slave p s.clock.port_ds.port_state s
follow_state p listening s = follow_other p listening s
follow_state p st s = s

unfoldable pub follow : Port → System → System
unfolding follow_master on_event follow_slave follow_other follow_state
follow p s = follow_state p s.clock.recommended_state s

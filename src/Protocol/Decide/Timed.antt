-- ===== src/Protocol/Decide/Timed.antt =====
-- The timers under the state decision of `doState` in src/protocol.c.
use ptpd_lwip.Bmc.Decision.State.{bmc-Agrees}
use ptpd_lwip.Protocol.{to_state}
use ptpd_lwip.Protocol.Timers.Agree.{IsTimed, to_state-IsTimed}
use ptpd_lwip.Types.Opt.{
  uncalibrated, Timer, PortState, slave, state_number, get_flag, pre_master, initializing,
  same_state, faulty, master, qualification_timeout, passive, disabled, listening,
}
use ptpd_lwip.Protocol.Decide.{
  follow_slave, on_event, follow_master, clear_event, follow_state, decide, follow, follow_other,
  decide_now, is_deciding,
}
use ptpd_lwip.Types.System.{System, Port, log, lwip_ptp_check_timer, on_clock}
use ptpd_lwip.Protocol.Timers.{running, has_timer}
use ptpd_lwip.Types.Opt.Event
use ptpd_lwip.Prelude.{arith, ◌≡◌, ◌≢◌, ℕ, ap, ◌∙◌, Bool-cases, inl, sym, inr, refl, ◌&&◌, false}

-- `toState` to a state that asks nothing of the state before.
pub free-IsTimed :
    (p : Port) (st : PortState) (s : System) → st ≢ slave → IsTimed s → IsTimed (to_state p st s)
free-IsTimed p st s other timed = (to_state-IsTimed p st s timed (λ e. absurd (other e))).1

calls-IsTimed :
    (s r : System) → r.calls ≡ s.calls → r.clock.port_ds ≡ s.clock.port_ds → IsTimed s → IsTimed r
calls-IsTimed s r same_calls same_port timed = record {
  timers = λ t.
      ap (running t) same_calls
      ∙ timed.timers t
      ∙ ap (λ d. has_timer d.delay_mechanism d.port_state t) (sym same_port);
}

pub checked-IsTimed :
    (u : Timer) (s : System) → IsTimed s → IsTimed (log (lwip_ptp_check_timer u) s)
unfolding running
checked-IsTimed u s timed = record { timers = timed.timers }

on_event-IsTimed :
    (mask : ℕ) (act : System → System) (s : System)
    → (IsTimed (clear_event mask s) → IsTimed (act (clear_event mask s)))
    → IsTimed s
    → IsTimed (on_event mask act s)
unfolding on_event
on_event-IsTimed mask act s acts timed = elim (Bool-cases (get_flag s.clock.events mask)) [
  | inl raised ↦ rw raised (acts (calls-IsTimed s (clear_event mask s) refl refl timed))
  | inr quiet ↦ rw quiet timed
]

uncalibrated-apart : uncalibrated ≢ slave
uncalibrated-apart e = ground (arith, ap state_number e)

fresh-IsTimed : (p : Port) (s : System) → IsTimed s → IsTimed (to_state p uncalibrated s)
fresh-IsTimed p s timed = free-IsTimed p uncalibrated s uncalibrated-apart timed

follow_slave-IsTimed :
    (p : Port) (cur : PortState) (s : System)
    → s.clock.port_ds.port_state ≡ cur
    → IsTimed s
    → IsTimed (follow_slave p cur s)
unfolding follow_slave
follow_slave-IsTimed p uncalibrated s at timed =
    on_event-IsTimed Event.master_clock_changed (λ r. r) _ (λ r. r)
      (on_event-IsTimed Event.master_clock_selected (to_state p slave) s
        (λ r.
          (to_state-IsTimed p slave (clear_event Event.master_clock_selected s) r
            (λ e. rw at refl)).1)
        timed)
follow_slave-IsTimed p slave s at timed =
    on_event-IsTimed Event.master_clock_changed (to_state p uncalibrated) _
      (λ r. fresh-IsTimed p _ r)
      (on_event-IsTimed Event.synchronization_fault (to_state p uncalibrated) s
        (λ r. fresh-IsTimed p _ r) timed)
follow_slave-IsTimed p initializing s at timed = fresh-IsTimed p s timed
follow_slave-IsTimed p faulty s at timed = fresh-IsTimed p s timed
follow_slave-IsTimed p disabled s at timed = fresh-IsTimed p s timed
follow_slave-IsTimed p listening s at timed = fresh-IsTimed p s timed
follow_slave-IsTimed p pre_master s at timed = fresh-IsTimed p s timed
follow_slave-IsTimed p master s at timed = fresh-IsTimed p s timed
follow_slave-IsTimed p passive s at timed = fresh-IsTimed p s timed

start-IsTimed : (p : Port) (s : System) → IsTimed s → IsTimed (to_state p pre_master s)
start-IsTimed p s timed = free-IsTimed p pre_master s (λ e. ground (arith, ap state_number e)) timed

qualified-IsTimed : (p : Port) (s : System) → IsTimed s → IsTimed (follow_master p pre_master s)
unfolding follow_master
qualified-IsTimed p s timed =
    let checked = log (lwip_ptp_check_timer qualification_timeout) s in
    let still = checked-IsTimed qualification_timeout s timed in
    elim (Bool-cases (p.expired s.calls qualification_timeout)) [
      | inl due ↦
          rw due (free-IsTimed p master checked (λ e. ground (arith, ap state_number e)) still)
      | inr early ↦ rw early still
    ]

follow_master-IsTimed :
    (p : Port) (cur : PortState) (s : System) → IsTimed s → IsTimed (follow_master p cur s)
unfolding follow_master
follow_master-IsTimed p pre_master s timed = qualified-IsTimed p s timed
follow_master-IsTimed p master s timed = timed
follow_master-IsTimed p initializing s timed = start-IsTimed p s timed
follow_master-IsTimed p faulty s timed = start-IsTimed p s timed
follow_master-IsTimed p disabled s timed = start-IsTimed p s timed
follow_master-IsTimed p listening s timed = start-IsTimed p s timed
follow_master-IsTimed p passive s timed = start-IsTimed p s timed
follow_master-IsTimed p uncalibrated s timed = start-IsTimed p s timed
follow_master-IsTimed p slave s timed = start-IsTimed p s timed

follow_other-IsTimed :
    (p : Port) (st : PortState) (s : System)
    → st ≢ slave
    → IsTimed s
    → IsTimed (follow_other p st s)
unfolding follow_other
follow_other-IsTimed p st s other timed =
    elim (Bool-cases (same_state s.clock.port_ds.port_state st)) [
      | inl there ↦ rw there timed
      | inr away ↦ rw away (free-IsTimed p st s other timed)
    ]

follow_state-IsTimed :
    (p : Port) (st : PortState) (s : System) → IsTimed s → IsTimed (follow_state p st s)
unfolding follow_state
follow_state-IsTimed p master s timed = follow_master-IsTimed p s.clock.port_ds.port_state s timed
follow_state-IsTimed p slave s timed =
    follow_slave-IsTimed p s.clock.port_ds.port_state s refl timed
follow_state-IsTimed p passive s timed =
    follow_other-IsTimed p passive s (λ e. ground (arith, ap state_number e)) timed
follow_state-IsTimed p listening s timed =
    follow_other-IsTimed p listening s (λ e. ground (arith, ap state_number e)) timed
follow_state-IsTimed p initializing s timed = timed
follow_state-IsTimed p faulty s timed = timed
follow_state-IsTimed p disabled s timed = timed
follow_state-IsTimed p pre_master s timed = timed
follow_state-IsTimed p uncalibrated s timed = timed

decide-IsTimed : (s : System) → IsTimed s → IsTimed (decide s)
unfolding decide decide_now
decide-IsTimed s timed =
    let quiet = on_clock (λ c. record c { message_activity = false }) s in
    let due = get_flag s.clock.events Event.state_decision_event in
    elim (Bool-cases (is_deciding s.clock.port_ds.port_state && due)) [
      | inl now ↦ rw now (
          calls-IsTimed s _ refl
            (bmc-Agrees (clear_event Event.state_decision_event quiet).clock).local_kept.1 timed)
      | inr later ↦ rw later (calls-IsTimed s _ refl refl timed)
    ]

-- If exactly the timers of the port's state run, then so they do after the state decision and the
-- change of state that it brings, whatever the Announce messages, the events and the timers say.
pub follow-IsTimed : (p : Port) (s : System) → IsTimed s → IsTimed (follow p (decide s))
unfolding follow
follow-IsTimed p s timed =
    follow_state-IsTimed p (decide s).clock.recommended_state (decide s) (decide-IsTimed s timed)

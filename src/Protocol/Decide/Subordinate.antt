-- ===== src/Protocol/Decide/Subordinate.antt =====
-- A slave-only clock under the state decision of `doState` in src/protocol.c.
use ptpd_lwip.Bmc.Decision.{bmc}
use ptpd_lwip.Protocol.Timers.Agree.{state_after}
use ptpd_lwip.Protocol.Timers.Agree.Kept.{recommended_after, to_state-kept}
use ptpd_lwip.Bmc.Decision.State.{bmc-Agrees}
use ptpd_lwip.Protocol.{to_state}
use ptpd_lwip.Types.System.{Port, System, on_clock}
use ptpd_lwip.Types.Opt.{
  PortState, listening, slave, master, initializing, pre_master, get_flag, same_state, uncalibrated,
  faulty, passive, disabled,
}
use ptpd_lwip.Protocol.Decide.{
  follow_slave, restrict, follow_state, follow, decide, on_event, decide_now, is_slave_only,
  follow_other, clear_event, is_deciding,
}
use ptpd_lwip.Types.Opt.Event
use ptpd_lwip.Prelude.{arith, ◌≡◌, ℕ, true, Bool, Bool-cases, ◌⊎◌, false, refl, inl, inr, ◌&&◌}

-- The states that are neither MASTER nor on the way there, nor PASSIVE.
abbrev pub is_low : PortState → Bool
is_low pre_master = false
is_low master = false
is_low passive = false
is_low _ = true

-- A slave-only clock that is, and is to be, in such a state.
pub record IsSubordinate (s : System) : Type 0 where
  pub only : is_slave_only s.clock ≡ true
  pub state_low : is_low s.clock.port_ds.port_state ≡ true
  pub recommended_low : is_low s.clock.recommended_state ≡ true

state_after-low : (st : PortState) → is_low st ≡ true → is_low (state_after st) ≡ true
state_after-low initializing h = refl
state_after-low faulty h = refl
state_after-low disabled h = refl
state_after-low listening h = refl
state_after-low uncalibrated h = refl
state_after-low slave h = refl
state_after-low pre_master h = absurd (ground arith)
state_after-low master h = absurd (ground arith)
state_after-low passive h = absurd (ground arith)

recommended_after-low :
    (st r : PortState) → is_low r ≡ true → is_low (recommended_after st r) ≡ true
recommended_after-low initializing r h = refl
recommended_after-low listening r h = refl
recommended_after-low st r h = h

pub to_state-IsSubordinate :
    (p : Port) (st : PortState) (s : System)
    → is_low st ≡ true
    → IsSubordinate s
    → IsSubordinate (to_state p st s)
to_state-IsSubordinate p st s low sub =
    let (at, default, recommended) = to_state-kept p st s in
    record {
      only = rw default sub.only;
      state_low = rw at (state_after-low st low);
      recommended_low = rw recommended (recommended_after-low st _ sub.recommended_low);
    }

on_event-IsSubordinate :
    (mask : ℕ) (act : System → System) (s : System)
    → ((r : System) → IsSubordinate r → IsSubordinate (act r))
    → IsSubordinate s
    → IsSubordinate (on_event mask act s)
unfolding on_event
on_event-IsSubordinate mask act s acts sub = elim (Bool-cases (get_flag s.clock.events mask)) [
  | inl raised ↦ rw raised (
      acts (clear_event mask s) (record {
        only = sub.only;
        state_low = sub.state_low;
        recommended_low = sub.recommended_low;
      }))
  | inr quiet ↦ rw quiet sub
]

follow_slave-IsSubordinate :
    (p : Port) (cur : PortState) (s : System)
    → IsSubordinate s
    → IsSubordinate (follow_slave p cur s)
unfolding follow_slave
follow_slave-IsSubordinate p uncalibrated s sub =
    on_event-IsSubordinate Event.master_clock_changed (λ r. r) _ (λ r h. h)
      (on_event-IsSubordinate Event.master_clock_selected (to_state p slave) s
        (λ r. to_state-IsSubordinate p slave r refl) sub)
follow_slave-IsSubordinate p slave s sub =
    on_event-IsSubordinate Event.master_clock_changed (to_state p uncalibrated) _
      (λ r. to_state-IsSubordinate p uncalibrated r refl)
      (on_event-IsSubordinate Event.synchronization_fault (to_state p uncalibrated) s
        (λ r. to_state-IsSubordinate p uncalibrated r refl) sub)
follow_slave-IsSubordinate p cur s sub = to_state-IsSubordinate p uncalibrated s refl sub

follow_state-IsSubordinate :
    (p : Port) (st : PortState) (s : System)
    → is_low st ≡ true
    → IsSubordinate s
    → IsSubordinate (follow_state p st s)
unfolding follow_state follow_other
follow_state-IsSubordinate p master s low sub = absurd (ground arith)
follow_state-IsSubordinate p passive s low sub = absurd (ground arith)
follow_state-IsSubordinate p pre_master s low sub = absurd (ground arith)
follow_state-IsSubordinate p slave s low sub =
    follow_slave-IsSubordinate p s.clock.port_ds.port_state s sub
follow_state-IsSubordinate p listening s low sub =
    elim (Bool-cases (same_state s.clock.port_ds.port_state listening)) [
      | inl there ↦ rw there sub
      | inr away ↦ rw away (to_state-IsSubordinate p listening s refl sub)
    ]
follow_state-IsSubordinate p initializing s low sub = sub
follow_state-IsSubordinate p faulty s low sub = sub
follow_state-IsSubordinate p disabled s low sub = sub
follow_state-IsSubordinate p uncalibrated s low sub = sub

restrict-low :
    (st : PortState)
    → (st ≡ listening) ⊎ (st ≡ master) ⊎ (st ≡ passive) ⊎ (st ≡ slave)
    → is_low (restrict true st) ≡ true
unfolding restrict
restrict-low st (inl e) = rw e refl
restrict-low st (inr (inl e)) = rw e refl
restrict-low st (inr (inr (inl e))) = rw e refl
restrict-low st (inr (inr (inr e))) = rw e refl

still_only :
    (s : System)
    → IsSubordinate s
    → is_slave_only (bmc (clear_event Event.state_decision_event s).clock).0 ≡ true
still_only s sub =
    rw (bmc-Agrees (clear_event Event.state_decision_event s).clock).local_kept.0 sub.only

decide_now-IsSubordinate : (s : System) → IsSubordinate s → IsSubordinate (decide_now s)
unfolding decide_now
decide_now-IsSubordinate s sub =
    let agrees = bmc-Agrees (clear_event Event.state_decision_event s).clock in
    let only = still_only s sub in
    record {
      only = only;
      state_low = rw agrees.local_kept.1 sub.state_low;
      recommended_low = rw only (restrict-low _ agrees.possible);
    }

decide-IsSubordinate : (s : System) → IsSubordinate s → IsSubordinate (decide s)
unfolding decide
decide-IsSubordinate s sub =
    let quiet = on_clock (λ c. record c { message_activity = false }) s in
    let due = get_flag s.clock.events Event.state_decision_event in
    let unchanged : IsSubordinate quiet = record {
      only = sub.only;
      state_low = sub.state_low;
      recommended_low = sub.recommended_low;
    } in
    elim (Bool-cases (is_deciding s.clock.port_ds.port_state && due)) [
      | inl now ↦ rw now (decide_now-IsSubordinate quiet unchanged)
      | inr later ↦ rw later unchanged
    ]

-- A slave-only clock (by its option or its class 255) that is in none of the states MASTER,
-- PRE_MASTER and PASSIVE does not enter one by a state decision, whatever it has heard.
pub follow-IsSubordinate :
    (p : Port) (s : System) → IsSubordinate s → IsSubordinate (follow p (decide s))
unfolding follow
follow-IsSubordinate p s sub =
    let decided = decide-IsSubordinate s sub in
    follow_state-IsSubordinate p (decide s).clock.recommended_state (decide s)
      decided.recommended_low decided

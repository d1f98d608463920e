-- ===== src/Protocol/Decide/Started.antt =====
-- The states that a port gets to, after the start, in the first two `switch`es of `doState` in
-- src/protocol.c.
use ptpd_lwip.Prelude.{Bool, true, ◌≡◌, false, arith, Bool-cases, ◌&&◌, ◌⊎◌, refl, inl, inr, ℕ}
use ptpd_lwip.Types.System.{Port, System, on_clock, log, lwip_ptp_check_timer}
use ptpd_lwip.Types.Opt.{
  PortState, pre_master, listening, initializing, master, faulty, passive, get_flag, slave,
  uncalibrated, same_state, disabled, qualification_timeout,
}
use ptpd_lwip.Bmc.Decision.State.{bmc-Agrees}
use ptpd_lwip.Types.Opt.Event
use ptpd_lwip.Protocol.{to_state}
use ptpd_lwip.Protocol.Decide.{
  decide, decide_now, follow, follow_state, follow_master, follow_slave, follow_other, on_event,
  restrict, clear_event, is_deciding,
}
use ptpd_lwip.Protocol.Decide.Resume.{state}
use ptpd_lwip.Protocol.Timers.Agree.{state_after}
use ptpd_lwip.Protocol.Timers.Agree.Kept.{to_state-kept, recommended_after}

-- The states other than INITIALIZING, those other than FAULTY beside, and those that are recommended.
abbrev pub is_started : PortState → Bool
is_started initializing = false
is_started _ = true

abbrev pub is_serving : PortState → Bool
is_serving initializing = false
is_serving faulty = false
is_serving _ = true

abbrev pub is_told : PortState → Bool
is_told listening = true
is_told master = true
is_told passive = true
is_told slave = true
is_told _ = false

pub record IsStarted (s : System) : Type 0 where
  pub at : is_started (state s) ≡ true
  pub told : is_told s.clock.recommended_state ≡ true

pub record IsServing (s : System) : Type 0 where
  pub at : is_serving (state s) ≡ true
  pub told : is_told s.clock.recommended_state ≡ true

after-started : (st : PortState) → is_started st ≡ true → is_started (state_after st) ≡ true
after-started pre_master h = refl
after-started st h = h

after-serving : (st : PortState) → is_serving st ≡ true → is_serving (state_after st) ≡ true
after-serving pre_master h = refl
after-serving st h = h

told_after :
    (st r : PortState)
    → is_started st ≡ true
    → is_told r ≡ true
    → is_told (recommended_after st r) ≡ true
told_after initializing r h told = absurd (ground arith)
told_after listening r h told = refl
told_after st r h told = told

serves : (st : PortState) → is_serving st ≡ true → is_started st ≡ true
serves initializing h = h
serves faulty h = refl
serves st h = h

pub serving-IsStarted : (s : System) → IsServing s → IsStarted s
serving-IsStarted s v = record { at = serves (state s) v.at; told = v.told }

pub to_state-IsStarted :
    (p : Port) (st : PortState) (s : System)
    → is_started st ≡ true
    → is_told s.clock.recommended_state ≡ true
    → IsStarted (to_state p st s)
to_state-IsStarted p st s h told =
    let (at, default, recommended) = to_state-kept p st s in
    record {
      at = rw at (after-started st h);
      told = rw recommended (told_after st s.clock.recommended_state h told);
    }

to_state-IsServing :
    (p : Port) (st : PortState) (s : System)
    → is_serving st ≡ true
    → is_told s.clock.recommended_state ≡ true
    → IsServing (to_state p st s)
to_state-IsServing p st s h told = record {
  at = rw (to_state-kept p st s).0 (after-serving st h);
  told = (to_state-IsStarted p st s (serves st h) told).told;
}

-- A decision recommends one of the four states.
restrict-told :
    (only : Bool) (st : PortState)
    → (st ≡ listening) ⊎ (st ≡ master) ⊎ (st ≡ passive) ⊎ (st ≡ slave)
    → is_told (restrict only st) ≡ true
unfolding restrict
restrict-told only st possible = ground arith

decide_now-IsStarted : (s : System) → IsStarted s → IsStarted (decide_now s)
unfolding decide_now
decide_now-IsStarted s v =
    let agrees = bmc-Agrees (clear_event Event.state_decision_event s).clock in
    record { at = rw agrees.local_kept.1 v.at; told = restrict-told _ _ agrees.possible }

decide-IsStarted : (s : System) → IsStarted s → IsStarted (decide s)
unfolding decide
decide-IsStarted s v =
    let quiet = on_clock (λ c. record c { message_activity = false }) s in
    let kept : IsStarted quiet = record { at = v.at; told = v.told } in
    elim (Bool-cases
      (is_deciding (state s) && get_flag s.clock.events Event.state_decision_event)) [
        | inl due ↦ rw due (decide_now-IsStarted quiet kept)
        | inr rest ↦ rw rest kept
      ]

on_event-IsServing :
    (mask : ℕ) (does : System → System) (s : System)
    → ((r : System) → IsServing r → IsServing (does r))
    → IsServing s
    → IsServing (on_event mask does s)
unfolding on_event
on_event-IsServing mask does s done v = elim (Bool-cases (get_flag s.clock.events mask)) [
  | inl raised ↦ rw raised (done (clear_event mask s) (record { at = v.at; told = v.told }))
  | inr quiet ↦ rw quiet v
]

follow_slave-IsServing :
    (p : Port) (cur : PortState) (s : System)
    → state s ≡ cur
    → is_told s.clock.recommended_state ≡ true
    → IsServing (follow_slave p cur s)
unfolding follow_slave
follow_slave-IsServing p uncalibrated s e told =
    on_event-IsServing Event.master_clock_changed (λ r. r) _ (λ r h. h)
      (on_event-IsServing Event.master_clock_selected (to_state p slave) s
        (λ r h. to_state-IsServing p slave r refl h.told) (record { at = rw e refl; told = told }))
follow_slave-IsServing p slave s e told =
    on_event-IsServing Event.master_clock_changed (to_state p uncalibrated) _
      (λ r h. to_state-IsServing p uncalibrated r refl h.told)
      (on_event-IsServing Event.synchronization_fault (to_state p uncalibrated) s
        (λ r h. to_state-IsServing p uncalibrated r refl h.told)
        (record { at = rw e refl; told = told }))
follow_slave-IsServing p cur s e told = to_state-IsServing p uncalibrated s refl told

follow_master-IsServing :
    (p : Port) (cur : PortState) (s : System)
    → state s ≡ cur
    → is_told s.clock.recommended_state ≡ true
    → IsServing (follow_master p cur s)
unfolding follow_master
follow_master-IsServing p pre_master s e told =
    let checked = log (lwip_ptp_check_timer qualification_timeout) s in
    elim (Bool-cases (p.expired s.calls qualification_timeout)) [
      | inl due ↦ rw due (to_state-IsServing p master checked refl told)
      | inr early ↦ rw early (record { at = rw e refl; told = told })
    ]
follow_master-IsServing p master s e told = record { at = rw e refl; told = told }
follow_master-IsServing p cur s e told = to_state-IsServing p pre_master s refl told

there-serving :
    (cur st : PortState) → same_state cur st ≡ true → is_serving st ≡ true → is_serving cur ≡ true
there-serving initializing initializing e h = h
there-serving initializing st e h = ground (arith, e, h)
there-serving faulty faulty e h = h
there-serving faulty st e h = ground (arith, e, h)
there-serving cur st e h = refl

follow_other-IsServing :
    (p : Port) (st : PortState) (s : System)
    → is_serving st ≡ true
    → is_told s.clock.recommended_state ≡ true
    → IsServing (follow_other p st s)
unfolding follow_other
follow_other-IsServing p st s h told = elim (Bool-cases (same_state (state s) st)) [
  | inl there ↦ rw there (record { at = there-serving (state s) st there h; told = told })
  | inr away ↦ rw away (to_state-IsServing p st s h told)
]

follow_state-IsServing :
    (p : Port) (r : PortState) (s : System)
    → is_told r ≡ true
    → is_told s.clock.recommended_state ≡ true
    → IsServing (follow_state p r s)
unfolding follow_state
follow_state-IsServing p listening s h told = follow_other-IsServing p listening s refl told
follow_state-IsServing p passive s h told = follow_other-IsServing p passive s refl told
follow_state-IsServing p master s h told = follow_master-IsServing p (state s) s refl told
follow_state-IsServing p slave s h told = follow_slave-IsServing p (state s) s refl told
follow_state-IsServing p initializing s h told = absurd (ground arith)
follow_state-IsServing p faulty s h told = absurd (ground arith)
follow_state-IsServing p disabled s h told = absurd (ground arith)
follow_state-IsServing p pre_master s h told = absurd (ground arith)
follow_state-IsServing p uncalibrated s h told = absurd (ground arith)

-- A port that has started leaves the first two `switch`es in neither INITIALIZING nor FAULTY.
pub follow-IsServing : (p : Port) (s : System) → IsStarted s → IsServing (follow p (decide s))
follow-IsServing p s v =
    let decided = decide-IsStarted s v in
    unfold follow in
    follow_state-IsServing p (decide s).clock.recommended_state (decide s) decided.told decided.told

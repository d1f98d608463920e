-- ===== src/Protocol/Decide/Options.antt =====
-- The run-time options and the table of foreign masters under the state decision of `doState` in
-- src/protocol.c.
use ptpd_lwip.Bmc.Decision.State.{bmc-Agrees, bmc-InBounds}
use ptpd_lwip.Protocol.Moves.{to_state-IsSized}
use ptpd_lwip.Bmc.Spares.{IsSized}
use ptpd_lwip.Protocol.{to_state}
use ptpd_lwip.Types.Message.{MsgHeader, MsgAnnounce}
use ptpd_lwip.Prelude.{
  ℕ, ◌≡◌, Bool, ◌∙◌, if◌then◌else◌, refl, Bool-cases, true, false, arith, ◌==◌, ◌&&◌, inl, inr, ap,
  sym,
}
use ptpd_lwip.Prelude.Int.{ℤ}
use ptpd_lwip.Types.System.{System, Port, on_clock, log, lwip_ptp_check_timer}
use ptpd_lwip.Types.Clock.{PtpClock}
use ptpd_lwip.Bmc.Decision.{bmc, bmc_state_decision, recommend, copy_d0}
use ptpd_lwip.Bmc.Update.{m1, s1, p1}
use ptpd_lwip.Protocol.Timers.Agree.Kept.{to_state-options}
use ptpd_lwip.Protocol.Decide.{
  decide, decide_now, follow, follow_state, follow_master, follow_slave, follow_other, on_event,
  clear_event, is_deciding,
}
use ptpd_lwip.Types.Opt.{
  listening, pre_master, master, passive, uncalibrated, slave, PortState, get_flag, same_state,
  qualification_timeout,
}
use ptpd_lwip.Types.Opt.Event

recommend-options :
    (comp : ℤ) (c : PtpClock) (h : MsgHeader) (a : MsgAnnounce)
    → (recommend comp (copy_d0 c) h a).0.rt_opts ≡ c.rt_opts
unfolding recommend copy_d0 m1 s1 p1
recommend-options comp c h a = ground arith

bmc_state_decision-options :
    (c : PtpClock) (h : MsgHeader) (a : MsgAnnounce)
    → (bmc_state_decision c h a).0.rt_opts ≡ c.rt_opts
bmc_state_decision-options c h a =
    unfold bmc_state_decision in
    elim (Bool-cases
      ((c.foreign_master_ds.count == 0) && same_state c.port_ds.port_state listening)) [
        | inl wait ↦ rw wait refl
        | inr heard ↦ rw heard (recommend-options _ c h a)
      ]

bmc-options : (c : PtpClock) → (bmc c).0.rt_opts ≡ c.rt_opts
unfolding bmc
bmc-options c = bmc_state_decision-options _ _ _

bmc-capacity : (c : PtpClock) → (bmc c).0.foreign_master_ds.capacity ≡ c.foreign_master_ds.capacity
bmc-capacity c = ap (λ f. f.capacity) (bmc-Agrees c).local_kept.2

decide_now-options : (s : System) → (decide_now s).clock.rt_opts ≡ s.clock.rt_opts
unfolding decide_now
decide_now-options s = bmc-options (clear_event Event.state_decision_event s).clock

decide-options : (s : System) → (decide s).clock.rt_opts ≡ s.clock.rt_opts
decide-options s =
    let quiet = on_clock (λ c. record c { message_activity = false }) s in
    let due = get_flag s.clock.events Event.state_decision_event in
    unfold decide in
    elim (Bool-cases (is_deciding s.clock.port_ds.port_state && due)) [
      | inl now ↦ rw now (decide_now-options quiet)
      | inr later ↦ rw later refl
    ]

-- What `toState` and the clearing of an event keep of the clock is kept by the second `switch`.
module _ (p : Port) (P : PtpClock → Type 0)
    (moved : (st : PortState) (s : System) → P s.clock → P (to_state p st s).clock)
    (cleared : (mask : ℕ) (s : System) → P s.clock → P (clear_event mask s).clock) where
  choose : (b : Bool) (x y : System) → P x.clock → P y.clock → P (if b then x else y).clock
  choose true x y m n = m
  choose false x y m n = n

  on_event-keeps :
      (mask : ℕ) (act : System → System) (s : System)
      → ((r : System) → P r.clock → P (act r).clock)
      → P s.clock
      → P (on_event mask act s).clock
  unfolding on_event
  on_event-keeps mask act s acts h =
      choose (get_flag s.clock.events mask) _ _ (acts (clear_event mask s) (cleared mask s h)) h

  follow_slave-keeps : (cur : PortState) (s : System) → P s.clock → P (follow_slave p cur s).clock
  unfolding follow_slave
  follow_slave-keeps uncalibrated s h =
      on_event-keeps Event.master_clock_changed (λ r. r) _ (λ r k. k)
        (on_event-keeps Event.master_clock_selected (to_state p slave) s (moved slave) h)
  follow_slave-keeps slave s h =
      on_event-keeps Event.master_clock_changed (to_state p uncalibrated) _ (moved uncalibrated) (
        on_event-keeps Event.synchronization_fault (to_state p uncalibrated) s (moved uncalibrated)
          h)
  follow_slave-keeps cur s h = moved uncalibrated s h

  follow_master-keeps : (cur : PortState) (s : System) → P s.clock → P (follow_master p cur s).clock
  unfolding follow_master
  follow_master-keeps pre_master s h =
      let checked = log (lwip_ptp_check_timer qualification_timeout) s in
      choose (p.expired s.calls qualification_timeout) _ _ (moved master checked h) h
  follow_master-keeps master s h = h
  follow_master-keeps cur s h = moved pre_master s h

  follow_other-keeps : (st : PortState) (s : System) → P s.clock → P (follow_other p st s).clock
  unfolding follow_other
  follow_other-keeps st s h = choose (same_state s.clock.port_ds.port_state st) _ _ h (moved st s h)

  follow_state-keeps : (st : PortState) (s : System) → P s.clock → P (follow_state p st s).clock
  unfolding follow_state
  follow_state-keeps master s h = follow_master-keeps s.clock.port_ds.port_state s h
  follow_state-keeps passive s h = follow_other-keeps passive s h
  follow_state-keeps slave s h = follow_slave-keeps s.clock.port_ds.port_state s h
  follow_state-keeps listening s h = follow_other-keeps listening s h
  follow_state-keeps st s h = h

pub follow-options : (p : Port) (s : System) → (follow p (decide s)).clock.rt_opts ≡ s.clock.rt_opts
unfolding follow
follow-options p s =
    follow_state-keeps p (λ c. c.rt_opts ≡ s.clock.rt_opts) (λ st r h. to_state-options p st r ∙ h)
      (λ mask r h. h) (decide s).clock.recommended_state (decide s) (decide-options s)

decide_now-IsSized : (s : System) → IsSized s.clock → IsSized (decide_now s).clock
unfolding decide_now
decide_now-IsSized s v =
    let c = (clear_event Event.state_decision_event s).clock in
    record {
      bounds = bmc-InBounds c v.bounds;
      capacity =
          bmc-capacity c ∙ v.capacity ∙ ap (λ o. o.max_foreign_records) (sym (bmc-options c));
    }

decide-IsSized : (s : System) → IsSized s.clock → IsSized (decide s).clock
decide-IsSized s v =
    let quiet = on_clock (λ c. record c { message_activity = false }) s in
    let same : IsSized quiet.clock = record { bounds = v.bounds; capacity = v.capacity } in
    let due = get_flag s.clock.events Event.state_decision_event in
    unfold decide in
    elim (Bool-cases (is_deciding s.clock.port_ds.port_state && due)) [
      | inl now ↦ rw now (decide_now-IsSized quiet same)
      | inr later ↦ rw later same
    ]

pub follow-IsSized : (p : Port) (s : System) → IsSized s.clock → IsSized (follow p (decide s)).clock
unfolding follow
follow-IsSized p s v =
    follow_state-keeps p IsSized (to_state-IsSized p)
      (λ mask r h. record { bounds = h.bounds; capacity = h.capacity })
      (decide s).clock.recommended_state (decide s) (decide-IsSized s v)

-- ===== src/Protocol/Run/Timed.antt =====
-- The timers in a round of the stack in src/protocol.c.
use ptpd_lwip.Protocol.Receive.{handle}
use ptpd_lwip.Protocol.Issue.Moves.{
  issue_sync-Moves, issue_announce-Moves, issue_delay_req_timer_expired-Moves,
}
use ptpd_lwip.Protocol.Issue.{issue_sync, issue_announce}
use ptpd_lwip.Protocol.Receive.Moves.{handle-Moves}
use ptpd_lwip.Protocol.{recommend_state}
use ptpd_lwip.Protocol.Decide.{follow, decide, is_slave_only}
use ptpd_lwip.Protocol.Decide.Timed.{free-IsTimed, follow-IsTimed, checked-IsTimed}
use ptpd_lwip.Types.Opt.{
  PortState, initializing, Timer, master, listening, announce_receipt_timer, state_number,
  same_state, faulty, disabled, uncalibrated, slave, passive, pre_master, sync_interval_timer,
  announce_interval_timer,
}
use ptpd_lwip.Protocol.Timers.{running}
use ptpd_lwip.Protocol.Timers.Agree.{IsTimed}
use ptpd_lwip.Prelude.{Bool, ◌≡◌, if◌then◌else◌, sym, arith, true, false, ◌∙◌, ap, refl, not}
use ptpd_lwip.Types.System.{System, Port, on_clock, log, lwip_ptp_check_timer}
use mathlib.Core.Path.{subst}
use ptpd_lwip.Bmc.Update.{m1}
use ptpd_lwip.Protocol.Run.{
  act, act_in, do_state, do_init, initialize, announce_timeout, listen, on_timer, serve,
  forget_masters,
}
use ptpd_lwip.Protocol.Run.Init.{do_init-Initialized, initialize-listening}
use ptpd_lwip.Protocol.Moves.{Moves, follows, only_calls, either, IsPrompt, Moves-IsTimed}

stopped-IsTimed :
    (s : System)
    → s.clock.port_ds.port_state ≡ initializing
    → ((t : Timer) → running t s.calls ≡ false)
    → IsTimed s
stopped-IsTimed s at stopped = record { timers = λ t. stopped t ∙ rw at refl }

initialize-IsTimed :
    (p : Port) (s : System) → s.clock.port_ds.port_state ≡ initializing → IsTimed (initialize p s)
initialize-IsTimed p s at =
    let ready = do_init-Initialized p s in
    subst IsTimed (sym (initialize-listening p s)) (
      free-IsTimed p listening (do_init p s).1 (λ e. ground (arith, ap state_number e))
        (stopped-IsTimed (do_init p s).1 (ready.state ∙ at) ready.stopped))

choose-IsTimed : (b : Bool) (x y : System) → IsTimed x → IsTimed y → IsTimed (if b then x else y)
choose-IsTimed true x y m n = m
choose-IsTimed false x y m n = n

master_ready : (s : System) → IsTimed s → IsTimed (recommend_state master (on_clock m1 s))
unfolding m1
master_ready s timed = record { timers = timed.timers }

announce_timeout-IsTimed : (p : Port) (s : System) → IsTimed s → IsTimed (announce_timeout p s)
announce_timeout-IsTimed p before timed =
    let s = on_clock forget_masters before in
    let emptied : IsTimed s = record { timers = timed.timers } in
    let ready : IsTimed (recommend_state master (on_clock m1 s)) = master_ready s emptied in
    unfold announce_timeout in
    choose-IsTimed (not (is_slave_only s.clock)) _ _
      (free-IsTimed p master (recommend_state master (on_clock m1 s))
        (λ e. ground (arith, ap state_number e)) ready)
      (choose-IsTimed (not (same_state s.clock.port_ds.port_state listening)) _ _
        (free-IsTimed p listening s (λ e. ground (arith, ap state_number e)) emptied) emptied)

module _ (p : Port) (prompt : IsPrompt p) where
  listen-IsTimed : (s : System) → IsTimed s → IsTimed (listen p s)
  listen-IsTimed s timed =
      let checked = log (lwip_ptp_check_timer announce_receipt_timer) s in
      let still = checked-IsTimed announce_receipt_timer s timed in
      unfold listen in
      choose-IsTimed (p.expired s.calls announce_receipt_timer) _ _
        (announce_timeout-IsTimed p checked still)
        (Moves-IsTimed (handle-Moves p prompt checked) still)

  on_timer-Moves :
      (t : Timer) (issue : System → System)
      → ((s : System) → Moves p s (issue s))
      → (s : System) → Moves p s (on_timer p t issue s)
  unfolding on_timer running
  on_timer-Moves t issue issues s =
      either (p.expired s.calls t)
        (λ due. follows (only_calls refl (λ u. refl)) (issues (log (lwip_ptp_check_timer t) s)))
        (λ early. only_calls refl (λ u. refl))

  pub serve-Moves : (s : System) → Moves p s (serve p s)
  serve-Moves s =
      let s1 = on_timer p sync_interval_timer (issue_sync p) s in
      let s2 = on_timer p announce_interval_timer (issue_announce p) s1 in
      unfold serve in
      follows (on_timer-Moves sync_interval_timer (issue_sync p) (issue_sync-Moves p) s) (
        follows
          (on_timer-Moves announce_interval_timer (issue_announce p) (issue_announce-Moves p) s1)
          (follows (handle-Moves p prompt s2)
            (issue_delay_req_timer_expired-Moves p prompt (handle p s2))))

  act_in-IsTimed :
      (st : PortState) (s : System)
      → s.clock.port_ds.port_state ≡ st
      → IsTimed s
      → IsTimed (act_in p st s)
  unfolding act_in
  act_in-IsTimed initializing s at timed = initialize-IsTimed p s at
  act_in-IsTimed faulty s at timed =
      free-IsTimed p initializing s (λ e. ground (arith, ap state_number e)) timed
  act_in-IsTimed disabled s at timed = Moves-IsTimed (handle-Moves p prompt s) timed
  act_in-IsTimed listening s at timed = listen-IsTimed s timed
  act_in-IsTimed uncalibrated s at timed = listen-IsTimed s timed
  act_in-IsTimed slave s at timed = listen-IsTimed s timed
  act_in-IsTimed passive s at timed = listen-IsTimed s timed
  act_in-IsTimed master s at timed = Moves-IsTimed (serve-Moves s) timed
  act_in-IsTimed pre_master s at timed = timed

  -- On a port whose timers expire only while they run, a round of the stack leaves exactly the timers
  -- of the new state running if exactly those of the old state ran before: whatever messages come
  -- in, whichever timers have expired, and whether or not messages can be sent.
  pub do_state-IsTimed : (s : System) → IsTimed s → IsTimed (do_state p s)
  do_state-IsTimed s timed =
      let decided = follow p (decide s) in
      unfold do_state in
      unfold act in
      act_in-IsTimed decided.clock.port_ds.port_state decided refl (follow-IsTimed p s timed)

-- ===== src/Protocol/Run/Sized.antt =====
-- The table of foreign masters in a round of the stack in src/protocol.c.
use ptpd_lwip.Types.Opt.Event
use ptpd_lwip.Protocol.Run.Low.{act_in-first}
use ptpd_lwip.Protocol.Decide.Resume.{state, decide-rests, follow_starts, follow_state-rests}
use ptpd_lwip.Protocol.Receive.Moves.{handle-Moves}
use ptpd_lwip.Protocol.Decide.{follow, decide, is_slave_only, is_deciding}
use ptpd_lwip.Protocol.{recommend_state}
use ptpd_lwip.Prelude.{Bool, sym, if◌then◌else◌, arith, true, not, false, ◌≡◌, ◌∙◌, refl, ◌&&◌}
use ptpd_lwip.Types.System.{System, Port, on_clock, log, lwip_ptp_check_timer}
use mathlib.Core.Path.{subst}
use ptpd_lwip.Bmc.Spares.{IsSized, sized-IsRoomy, IsRoomy}
use ptpd_lwip.Bmc.Update.{m1}
use ptpd_lwip.Protocol.Decide.Options.{follow-IsSized}
use ptpd_lwip.Protocol.Moves.{IsPrompt, Moves-IsSized, to_state-IsSized}
use ptpd_lwip.Protocol.Run.{
  act, act_in, do_state, do_init, initialize, announce_timeout, listen, forget_masters,
}
use ptpd_lwip.Protocol.Run.Init.{do_init-IsSized, initialize-listening}
use ptpd_lwip.Protocol.Run.Timed.{serve-Moves}
use ptpd_lwip.Types.Opt.{
  initializing, faulty, disabled, listening, pre_master, master, passive, uncalibrated, slave,
  PortState, announce_receipt_timer, same_state, get_flag,
}

initialize-IsSized : (p : Port) (s : System) → IsRoomy s.clock → IsSized (initialize p s).clock
initialize-IsSized p s v =
    subst (λ r. IsSized r.clock) (sym (initialize-listening p s))
      (to_state-IsSized p listening (do_init p s).1 (do_init-IsSized p s v))

choose :
    (b : Bool) (x y : System)
    → IsSized x.clock
    → IsSized y.clock
    → IsSized (if b then x else y).clock
choose true x y m n = m
choose false x y m n = n

recommended-IsSized :
    (s : System) → IsSized s.clock → IsSized (recommend_state master (on_clock m1 s)).clock
unfolding m1
recommended-IsSized s v = record { bounds = v.bounds; capacity = v.capacity }

announce_timeout-IsSized :
    (p : Port) (s : System) → IsSized s.clock → IsSized (announce_timeout p s).clock
announce_timeout-IsSized p before v =
    let s = on_clock forget_masters before in
    let emptied : IsSized s.clock = record {
      bounds = record {
        size = v.bounds.size;
        count_in = omega (arith, v.bounds.next_in);
        next_in = omega (arith, v.bounds.next_in);
        best_in = v.bounds.best_in;
      };
      capacity = v.capacity;
    } in
    unfold announce_timeout in
    choose (not (is_slave_only s.clock)) _ _
      (to_state-IsSized p master (recommend_state master (on_clock m1 s))
        (recommended-IsSized s emptied))
      (choose (not (same_state s.clock.port_ds.port_state listening)) _ _
        (to_state-IsSized p listening s emptied) emptied)

module _ (p : Port) (prompt : IsPrompt p) where
  listen-IsSized : (s : System) → IsSized s.clock → IsSized (listen p s).clock
  listen-IsSized s v =
      let checked = log (lwip_ptp_check_timer announce_receipt_timer) s in
      unfold listen in
      choose (p.expired s.calls announce_receipt_timer) _ _ (announce_timeout-IsSized p checked v)
        (Moves-IsSized (handle-Moves p prompt checked) v)

  act_in-IsSized : (st : PortState) (s : System) → IsSized s.clock → IsSized (act_in p st s).clock
  unfolding act_in
  act_in-IsSized initializing s v = initialize-IsSized p s (sized-IsRoomy s.clock v)
  act_in-IsSized faulty s v = to_state-IsSized p initializing s v
  act_in-IsSized disabled s v = Moves-IsSized (handle-Moves p prompt s) v
  act_in-IsSized listening s v = listen-IsSized s v
  act_in-IsSized uncalibrated s v = listen-IsSized s v
  act_in-IsSized slave s v = listen-IsSized s v
  act_in-IsSized passive s v = listen-IsSized s v
  act_in-IsSized master s v = Moves-IsSized (serve-Moves p prompt s) v
  act_in-IsSized pre_master s v = v

  -- If the indices of the table of foreign masters lie within its array and the array has the size of the
  -- options, then so it is after a round of the stack, on a port whose timers expire only while they
  -- run: whatever Announce messages come in, whichever record is chosen, and also if the port starts
  -- over.
  pub do_state-IsSized : (s : System) → IsSized s.clock → IsSized (do_state p s).clock
  do_state-IsSized s v =
      let decided = follow p (decide s) in
      unfold do_state in
      unfold act in act_in-IsSized decided.clock.port_ds.port_state decided (follow-IsSized p s v)

decide-IsRoomy : (s : System) → state s ≡ initializing → IsRoomy s.clock → IsRoomy (decide s).clock
decide-IsRoomy s at v =
    let due = get_flag s.clock.events Event.state_decision_event in
    let never : (is_deciding (state s) && due) ≡ false = rw at refl in
    unfold decide in rw never (record { size = v.size; next_in = v.next_in; best_in = v.best_in })

starts-IsRoomy :
    (p : Port) (s : System)
    → state s ≡ initializing
    → s.clock.recommended_state ≡ initializing
    → IsRoomy s.clock
    → IsRoomy (follow p (decide s)).clock
starts-IsRoomy p s at recommended v =
    let same = (decide-rests s initializing at refl).1 ∙ recommended in
    unfold follow in
    rw (follow_state-rests p (decide s).clock.recommended_state (decide s) same)
      (decide-IsRoomy s at v)

-- The first round makes the table of foreign masters ready.
pub do_state_first-IsSized :
    (p : Port) (s : System)
    → state s ≡ initializing
    → s.clock.recommended_state ≡ initializing
    → IsRoomy s.clock
    → IsSized (do_state p s).clock
do_state_first-IsSized p s at recommended v =
    let decided = follow p (decide s) in
    unfold do_state in
    unfold act in
    subst (λ r. IsSized r.clock)
      (sym (act_in-first p (state decided) decided (follow_starts p s at recommended).0))
      (initialize-IsSized p decided (starts-IsRoomy p s at recommended v))

-- ===== src/Protocol/Run/Once.antt =====
-- Which cases of the last `switch` of `doState` in src/protocol.c a port gets to after its first
-- round.
use mathlib.Core.Path.{subst}
use ptpd_lwip.Types.Opt.{
  PortState, listening, faulty, initializing, master, announce_receipt_timer, same_state, disabled,
  uncalibrated, slave, passive, pre_master,
}
use ptpd_lwip.Prelude.{Bool, ◌≡◌, if◌then◌else◌, not, refl, true, arith, false, sym}
use ptpd_lwip.Types.System.{Port, System, on_clock, log, lwip_ptp_check_timer}
use ptpd_lwip.Bmc.Update.{m1}
use ptpd_lwip.Protocol.{recommend_state}
use ptpd_lwip.Protocol.Decide.{decide, follow, is_slave_only}
use ptpd_lwip.Protocol.Decide.Resume.{state, follow_starts}
use ptpd_lwip.Protocol.Decide.Started.{
  IsStarted, is_serving, to_state-IsStarted, serving-IsStarted, follow-IsServing,
}
use ptpd_lwip.Protocol.Moves.{Moves, IsPrompt, stores, restarts, faults, follows}
use ptpd_lwip.Protocol.Receive.Moves.{handle-Moves}
use ptpd_lwip.Protocol.Run.{
  act, act_in, do_state, do_init, initialize, announce_timeout, listen, forget_masters,
}
use ptpd_lwip.Protocol.Run.Init.{initialize-listening}
use ptpd_lwip.Protocol.Run.Low.{act_in-first}
use ptpd_lwip.Protocol.Run.Timed.{serve-Moves}
use ptpd_lwip.Protocol.Timers.Agree.Kept.{to_state-kept}

Moves-IsStarted : {p : Port} {s r : System} → Moves p s r → IsStarted s → IsStarted r
Moves-IsStarted (stores spares timers) v = record {
  at = rw spares.state v.at;
  told = rw spares.recommended v.told;
}
Moves-IsStarted (restarts t ms has) v = record { at = v.at; told = v.told }
Moves-IsStarted {p} (faults {s}) v = to_state-IsStarted p faulty s refl v.told
Moves-IsStarted (follows m n) v = Moves-IsStarted n (Moves-IsStarted m v)

choose-IsStarted :
    (b : Bool) (x y : System) → IsStarted x → IsStarted y → IsStarted (if b then x else y)
choose-IsStarted true x y m n = m
choose-IsStarted false x y m n = n

announce_timeout-IsStarted :
    (p : Port) (s : System) → IsStarted s → IsStarted (announce_timeout p s)
announce_timeout-IsStarted p before v =
    let s = on_clock forget_masters before in
    unfold announce_timeout in
    choose-IsStarted (not (is_slave_only s.clock)) _ _
      (to_state-IsStarted p master (recommend_state master (on_clock m1 s)) refl refl)
      (choose-IsStarted (not (same_state s.clock.port_ds.port_state listening)) _ _
        (to_state-IsStarted p listening s refl v.told) (record { at = v.at; told = v.told }))

module _ (p : Port) (prompt : IsPrompt p) where
  listen-IsStarted : (s : System) → IsStarted s → IsStarted (listen p s)
  listen-IsStarted s v =
      let checked = log (lwip_ptp_check_timer announce_receipt_timer) s in
      let still : IsStarted checked = record { at = v.at; told = v.told } in
      unfold listen in
      choose-IsStarted (p.expired s.calls announce_receipt_timer) _ _
        (announce_timeout-IsStarted p checked still)
        (Moves-IsStarted (handle-Moves p prompt checked) still)

  act_in-IsStarted :
      (st : PortState) (s : System) → is_serving st ≡ true → IsStarted s → IsStarted (act_in p st s)
  unfolding act_in
  act_in-IsStarted initializing s h v = absurd (ground arith)
  act_in-IsStarted faulty s h v = absurd (ground arith)
  act_in-IsStarted disabled s h v = Moves-IsStarted (handle-Moves p prompt s) v
  act_in-IsStarted listening s h v = listen-IsStarted s v
  act_in-IsStarted uncalibrated s h v = listen-IsStarted s v
  act_in-IsStarted slave s h v = listen-IsStarted s v
  act_in-IsStarted passive s h v = listen-IsStarted s v
  act_in-IsStarted master s h v = Moves-IsStarted (serve-Moves p prompt s) v
  act_in-IsStarted pre_master s h v = v

  pub do_state-IsStarted : (s : System) → IsStarted s → IsStarted (do_state p s)
  do_state-IsStarted s v =
      let decided = follow p (decide s) in
      let serving = follow-IsServing p s v in
      unfold do_state in
      unfold act in
      act_in-IsStarted (state decided) decided serving.at (serving-IsStarted decided serving)

initialize-IsStarted : (p : Port) (s : System) → IsStarted (initialize p s)
initialize-IsStarted p s =
    let (st, default, recommended) = to_state-kept p listening (do_init p s).1 in
    subst IsStarted (sym (initialize-listening p s))
      (record { at = rw st refl; told = rw recommended refl })

-- The first round starts the port.
pub do_state_first-IsStarted :
    (p : Port) (s : System)
    → state s ≡ initializing
    → s.clock.recommended_state ≡ initializing
    → IsStarted (do_state p s)
do_state_first-IsStarted p s at recommended =
    let decided = follow p (decide s) in
    unfold do_state in
    unfold act in
    subst IsStarted
      (sym (act_in-first p (state decided) decided (follow_starts p s at recommended).0))
      (initialize-IsStarted p decided)

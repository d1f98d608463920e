-- ===== src/Protocol/Run/Low.antt =====
-- A slave-only clock in a round of the stack in src/protocol.c.
use ptpd_lwip.Protocol.Decide.Resume.{state, follow_starts}
use ptpd_lwip.Protocol.Timers.Agree.Kept.{to_state-options}
use ptpd_lwip.Protocol.{to_state}
use ptpd_lwip.Protocol.Receive.Moves.{handle-Moves}
use ptpd_lwip.Prelude.{◌≡◌, Bool-cases, true, ◌≢◌, sym, false, refl, ◌∙◌, arith, inl, ap, inr}
use ptpd_lwip.Protocol.Decide.Subordinate.{
  is_low, follow-IsSubordinate, IsSubordinate, to_state-IsSubordinate,
}
use ptpd_lwip.Types.System.{Port, System, on_clock, log, lwip_ptp_check_timer}
use mathlib.Core.Path.{subst}
use ptpd_lwip.Protocol.Decide.{decide, follow}
use ptpd_lwip.Protocol.Decide.Options.{follow-options}
use ptpd_lwip.Protocol.Run.{
  act, act_in, do_state, do_init, initialize, announce_timeout, listen, forget_masters,
}
use ptpd_lwip.Protocol.Run.Init.{do_init-Initialized, initialize-listening, asks_slave_only}
use ptpd_lwip.Protocol.Moves.{Moves, IsPrompt, Moves-IsSubordinate, Moves-options}
use ptpd_lwip.Types.Opt.{
  initializing, faulty, disabled, listening, pre_master, master, passive, uncalibrated, slave,
  PortState, announce_receipt_timer, same_state,
}

-- A slave-only clock in a state that suits it, with options that ask for one.
pub record IsLow (s : System) : Type 0 where
  pub subordinate : IsSubordinate s
  pub options : asks_slave_only s.clock.rt_opts ≡ true

to_state-IsLow :
    (p : Port) (st : PortState) (s : System) → is_low st ≡ true → IsLow s → IsLow (to_state p st s)
to_state-IsLow p st s low h = record {
  subordinate = to_state-IsSubordinate p st s low h.subordinate;
  options = rw (to_state-options p st s) h.options;
}

Moves-IsLow : {p : Port} {s r : System} → Moves p s r → IsLow s → IsLow r
Moves-IsLow m h = record {
  subordinate = Moves-IsSubordinate m h.subordinate;
  options = rw (Moves-options m) h.options;
}

-- The case of INITIALIZING makes a clock slave-only whose options ask for it.
pub initialize-IsLow :
    (p : Port) (s : System)
    → is_low s.clock.port_ds.port_state ≡ true
    → is_low s.clock.recommended_state ≡ true
    → asks_slave_only s.clock.rt_opts ≡ true
    → IsLow (initialize p s)
initialize-IsLow p s low recommended asked =
    let ready = do_init-Initialized p s in
    subst IsLow (sym (initialize-listening p s)) (
      to_state-IsLow p listening (do_init p s).1 refl (record {
        subordinate = record {
          only = ready.only ∙ asked;
          state_low = rw ready.state low;
          recommended_low = rw ready.recommended recommended;
        };
        options = rw ready.options asked;
      }))

announce_timeout-IsLow : (p : Port) (s : System) → IsLow s → IsLow (announce_timeout p s)
announce_timeout-IsLow p before h =
    let s = on_clock forget_masters before in
    let emptied : IsLow s = record {
      subordinate = record {
        only = h.subordinate.only;
        state_low = h.subordinate.state_low;
        recommended_low = h.subordinate.recommended_low;
      };
      options = h.options;
    } in
    unfold announce_timeout in
    elim (Bool-cases (same_state s.clock.port_ds.port_state listening)) [
      | inl there ↦ rw (h.subordinate.only, there) emptied
      | inr away ↦ rw (h.subordinate.only, away) (to_state-IsLow p listening s refl emptied)
    ]

not_low :
    (st : PortState) (s : System) → s.clock.port_ds.port_state ≡ st → IsLow s → is_low st ≢ false
not_low st s at h e = ground (arith, h.subordinate.state_low, ap is_low at, e)

module _ (p : Port) (prompt : IsPrompt p) where
  listen-IsLow : (s : System) → IsLow s → IsLow (listen p s)
  listen-IsLow s h =
      let checked = log (lwip_ptp_check_timer announce_receipt_timer) s in
      let still : IsLow checked = record {
        subordinate = record {
          only = h.subordinate.only;
          state_low = h.subordinate.state_low;
          recommended_low = h.subordinate.recommended_low;
        };
        options = h.options;
      } in
      unfold listen in
      elim (Bool-cases (p.expired s.calls announce_receipt_timer)) [
        | inl due ↦ rw due (announce_timeout-IsLow p checked still)
        | inr early ↦ rw early (Moves-IsLow (handle-Moves p prompt checked) still)
      ]

  act_in-IsLow :
      (st : PortState) (s : System)
      → s.clock.port_ds.port_state ≡ st
      → IsLow s
      → IsLow (act_in p st s)
  unfolding act_in
  act_in-IsLow initializing s at h =
      initialize-IsLow p s h.subordinate.state_low h.subordinate.recommended_low h.options
  act_in-IsLow faulty s at h = to_state-IsLow p initializing s refl h
  act_in-IsLow disabled s at h = Moves-IsLow (handle-Moves p prompt s) h
  act_in-IsLow listening s at h = listen-IsLow s h
  act_in-IsLow uncalibrated s at h = listen-IsLow s h
  act_in-IsLow slave s at h = listen-IsLow s h
  act_in-IsLow passive s at h = listen-IsLow s h
  act_in-IsLow master s at h = absurd (not_low master s at h refl)
  act_in-IsLow pre_master s at h = h

  -- On a port whose timers expire only while they run, a slave-only clock whose options ask for it and
  -- that is in none of the states MASTER, PRE_MASTER and PASSIVE, nor to be, stays so in a round of
  -- the stack: whatever messages come in, and also if it starts over.
  pub do_state-IsLow : (s : System) → IsLow s → IsLow (do_state p s)
  do_state-IsLow s h =
      let decided = follow p (decide s) in
      let low : IsLow decided = record {
        subordinate = follow-IsSubordinate p s h.subordinate;
        options = rw (follow-options p s) h.options;
      } in
      unfold do_state in
      unfold act in act_in-IsLow decided.clock.port_ds.port_state decided refl low

pub act_in-first :
    (p : Port) (st : PortState) (s : System) → st ≡ initializing → act_in p st s ≡ initialize p s
unfolding act_in
act_in-first p st s e = rw (e, act_in) refl

-- The first round makes a clock slave-only whose options ask for it.
pub do_state_first :
    (p : Port) (s : System)
    → state s ≡ initializing
    → s.clock.recommended_state ≡ initializing
    → asks_slave_only s.clock.rt_opts ≡ true
    → IsLow (do_state p s)
do_state_first p s at recommended asked =
    let decided = follow p (decide s) in
    let (still, same) = follow_starts p s at recommended in
    let low : IsLow (initialize p decided) =
      initialize-IsLow p decided (rw still refl) (rw same refl) (rw (follow-options p s) asked) in
    unfold do_state in
    unfold act in subst IsLow (sym (act_in-first p (state decided) decided still)) low

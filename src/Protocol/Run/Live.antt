-- ===== src/Protocol/Run/Live.antt =====
-- Where a port gets to that starts, in src/protocol.c.
use ptpd_lwip.Protocol.Timers.Agree.Kept.{to_state-kept}
use ptpd_lwip.Prelude.{◌≡◌, ap, ◌∙◌}
use ptpd_lwip.Types.System.{Port, System}
use ptpd_lwip.Protocol.Decide.{decide, follow}
use ptpd_lwip.Protocol.Decide.Resume.{state, follow_starts}
use ptpd_lwip.Protocol.Run.{act, act_in, do_state, do_init}
use ptpd_lwip.Protocol.Run.Init.{initialize-listening}
use ptpd_lwip.Types.Opt.{initializing, listening, PortState}

act_in-starts :
    (p : Port) (st : PortState) (s : System) → st ≡ initializing → state (act_in p st s) ≡ listening
unfolding act_in
act_in-starts p st s e =
    rw (e, act_in)
      (ap state (initialize-listening p s) ∙ (to_state-kept p listening (do_init p s).1).0)

-- A port in the state INITIALIZING, which is recommended to it, is in the state LISTENING after one
-- round, whatever the port and lwIP answer.
pub do_state-listening :
    (p : Port) (s : System)
    → state s ≡ initializing
    → s.clock.recommended_state ≡ initializing
    → state (do_state p s) ≡ listening
do_state-listening p s at recommended =
    let decided = follow p (decide s) in
    unfold do_state in
    unfold act in act_in-starts p (state decided) decided (follow_starts p s at recommended).0

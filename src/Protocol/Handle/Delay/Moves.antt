-- ===== src/Protocol/Handle/Delay/Moves.antt =====
-- The handlers of Delay_Req and Delay_Resp messages in src/protocol.c, as moves of the port.
use ptpd_lwip.Protocol.Issue.Moves.{issue_delay_resp-Moves}
use ptpd_lwip.Types.Opt.{same_state, master}
use ptpd_lwip.Protocol.{is_follower}
use ptpd_lwip.Protocol.Handle.{is_short}
use ptpd_lwip.Prelude.{refl}
use ptpd_lwip.Servo.Offset.Frame.{update_delay-Spares}
use ptpd_lwip.Types.Time.{TimeInternal}
use ptpd_lwip.Types.System.{Port, System}
use ptpd_lwip.Types.Clock.{PtpClock}
use ptpd_lwip.Bmc.Spares.{Spares, Spares-trans, spared, chosen}
use ptpd_lwip.Protocol.Moves.{Moves, stores, faults, idle, either}
use ptpd_lwip.Protocol.Handle.Delay.{
  handle_delay_req, handle_delay_resp, delay_req_in, delay_resp_in, delay_resp_of_parent,
  delay_resp_follower,
}
use ptpd_lwip.Types.Opt.Default.{e2e, p2p, delay_disabled, DelayMechanism}
use ptpd_lwip.Types.Opt.Length

delay_resp_of_parent-Spares : (c : PtpClock) → Spares c (delay_resp_of_parent c)
unfolding delay_resp_of_parent
delay_resp_of_parent-Spares c =
    Spares-trans (spared refl refl refl refl refl refl)
      (Spares-trans (update_delay-Spares _ _ _ _) (spared refl refl refl refl refl refl))

delay_resp_follower-Spares : (c : PtpClock) → Spares c (delay_resp_follower c)
unfolding delay_resp_follower
delay_resp_follower-Spares c =
    chosen _ (Spares-trans (spared refl refl refl refl refl refl) (delay_resp_of_parent-Spares _))
      (spared refl refl refl refl refl refl)

module _ (p : Port) where
  delay_req_in-Moves : (t : TimeInternal) (s : System) → Moves p s (delay_req_in p t s)
  unfolding delay_req_in
  delay_req_in-Moves t s =
      either (is_short Length.delay_req s) (λ short. faults)
        (λ whole.
          either (same_state s.clock.port_ds.port_state master)
            (λ at. issue_delay_resp-Moves p t s.clock.msg_tmp_header s) (λ away. idle s))

  delay_resp_in-Moves : (s : System) → Moves p s (delay_resp_in p s)
  unfolding delay_resp_in
  delay_resp_in-Moves s =
      either (is_short Length.delay_resp s) (λ short. faults)
        (λ whole.
          either (is_follower s.clock.port_ds.port_state)
            (λ at. stores (delay_resp_follower-Spares s.clock) (λ t. refl)) (λ away. idle s))

  by_mechanism :
      (m : DelayMechanism) (s r : System) → Moves p s r → Moves p s (elim m [ e2e ↦ r | _ ↦ s ])
  by_mechanism e2e s r moves = moves
  by_mechanism p2p s r moves = idle s
  by_mechanism delay_disabled s r moves = idle s

  pub handle_delay_req-Moves : (t : TimeInternal) (s : System) → Moves p s (handle_delay_req p t s)
  handle_delay_req-Moves t s =
      unfold handle_delay_req in
      by_mechanism s.clock.port_ds.delay_mechanism s (delay_req_in p t s) (delay_req_in-Moves t s)

  pub handle_delay_resp-Moves : (s : System) → Moves p s (handle_delay_resp p s)
  handle_delay_resp-Moves s =
      unfold handle_delay_resp in
      by_mechanism s.clock.port_ds.delay_mechanism s (delay_resp_in p s) (delay_resp_in-Moves s)

-- ===== src/Protocol/Handle/Peer/Moves.antt =====
-- The handlers of the peer delay messages in src/protocol.c, as moves of the port.
use ptpd_lwip.Prelude.Int.{eqb_ℤ, pos}
use ptpd_lwip.Types.Opt.{same_state, passive, master, slave}
use ptpd_lwip.Protocol.Issue.{issue_pdelay_resp}
use ptpd_lwip.Servo.Offset.Frame.{update_peer_delay-Spares}
use ptpd_lwip.Protocol.Handle.{is_short}
use ptpd_lwip.Protocol.Issue.Moves.{issue_pdelay_resp-Moves, issue_pdelay_resp_follow_up-Moves}
use ptpd_lwip.Prelude.{Bool, refl, ◌&&◌, not, ◌||◌}
use ptpd_lwip.Types.Clock.{PtpClock}
use ptpd_lwip.Types.Time.{TimeInternal}
use ptpd_lwip.Types.System.{Port, System}
use ptpd_lwip.Bmc.Spares.{Spares, Spares-trans, spared, chosen}
use ptpd_lwip.Protocol.Moves.{Moves, stores, faults, follows, idle, either}
use ptpd_lwip.Protocol.Handle.Peer.{
  handle_pdelay_req, handle_pdelay_resp, handle_pdelay_resp_follow_up, pdelay_req_in,
  pdelay_resp_in, pdelay_follow_up_in, answer_pdelay_req, pdelay_resp_of_peer, pdelay_resp_unpacked,
  pdelay_follow_up_of_peer, is_two_step, is_last_pdelay_req,
}
use ptpd_lwip.Types.Opt.Default.{e2e, p2p, delay_disabled, DelayMechanism}
use ptpd_lwip.Types.Opt.Length

pdelay_resp_of_peer-Spares :
    (t local : TimeInternal) (c : PtpClock) → Spares c (pdelay_resp_of_peer t local c)
unfolding pdelay_resp_of_peer
pdelay_resp_of_peer-Spares t local c =
    chosen (is_two_step c) (spared refl refl refl refl refl refl)
      (Spares-trans (spared refl refl refl refl refl refl) (update_peer_delay-Spares _ _ _))

pdelay_resp_unpacked-Spares :
    (t local : TimeInternal) (c : PtpClock) → Spares c (pdelay_resp_unpacked t local c)
unfolding pdelay_resp_unpacked
pdelay_resp_unpacked-Spares t local c =
    chosen _
      (Spares-trans (spared refl refl refl refl refl refl) (pdelay_resp_of_peer-Spares t local _))
      (spared refl refl refl refl refl refl)

pdelay_follow_up_of_peer-Spares :
    (local : TimeInternal) (c : PtpClock) → Spares c (pdelay_follow_up_of_peer local c)
unfolding pdelay_follow_up_of_peer
pdelay_follow_up_of_peer-Spares local c =
    Spares-trans (spared refl refl refl refl refl refl)
      (Spares-trans (update_peer_delay-Spares _ _ _) (spared refl refl refl refl refl refl))

module _ (p : Port) where
  answer_pdelay_req-Moves : (t : TimeInternal) (s : System) → Moves p s (answer_pdelay_req p t s)
  unfolding answer_pdelay_req
  answer_pdelay_req-Moves t s =
      let (sent_at, s1) = issue_pdelay_resp p t s.clock.msg_tmp_header s in
      let answered = issue_pdelay_resp-Moves p t s.clock.msg_tmp_header s in
      either (not (eqb_ℤ sent_at.seconds (pos 0)) && is_two_step s1.clock)
        (λ two.
          follows answered (issue_pdelay_resp_follow_up-Moves p sent_at s1.clock.msg_tmp_header s1))
        (λ one. answered)

  pdelay_req_in-Moves :
      (t : TimeInternal) (from_self : Bool) (s : System) → Moves p s (pdelay_req_in p t from_self s)
  unfolding pdelay_req_in
  pdelay_req_in-Moves t from_self s =
      let st = s.clock.port_ds.port_state in
      let answers = same_state st passive || same_state st slave || same_state st master in
      either (is_short Length.pdelay_req s) (λ short. faults)
        (λ whole.
          either (answers && not from_self) (λ at. answer_pdelay_req-Moves t s) (λ away. idle s))

  pdelay_resp_in-Moves :
      (t : TimeInternal) (from_self : Bool) (s : System)
      → Moves p s (pdelay_resp_in p t from_self s)
  unfolding pdelay_resp_in
  pdelay_resp_in-Moves t from_self s =
      let st = s.clock.port_ds.port_state in
      either (is_short Length.pdelay_resp s) (λ short. faults)
        (λ whole.
          either ((same_state st master || same_state st slave) && not from_self)
            (λ at.
              stores (pdelay_resp_unpacked-Spares t (p.uninitialised_time s.calls) s.clock)
                (λ u. refl))
            (λ away. idle s))

  pdelay_follow_up_in-Moves : (s : System) → Moves p s (pdelay_follow_up_in p s)
  unfolding pdelay_follow_up_in
  pdelay_follow_up_in-Moves s =
      let st = s.clock.port_ds.port_state in
      let awaited = s.clock.waiting_for_pdelay_resp_follow_up && is_last_pdelay_req s.clock in
      either (is_short Length.pdelay_resp_follow_up s) (λ short. faults)
        (λ whole.
          either ((same_state st slave || same_state st master) && awaited)
            (λ at.
              stores (pdelay_follow_up_of_peer-Spares (p.uninitialised_time s.calls) s.clock)
                (λ u. refl))
            (λ away. idle s))

  by_mechanism :
      (m : DelayMechanism) (s r : System) → Moves p s r → Moves p s (elim m [ p2p ↦ r | _ ↦ s ])
  by_mechanism e2e s r moves = idle s
  by_mechanism p2p s r moves = moves
  by_mechanism delay_disabled s r moves = idle s

  pub handle_pdelay_req-Moves :
      (t : TimeInternal) (from_self : Bool) (s : System)
      → Moves p s (handle_pdelay_req p t from_self s)
  handle_pdelay_req-Moves t from_self s =
      unfold handle_pdelay_req in
      by_mechanism s.clock.port_ds.delay_mechanism s (pdelay_req_in p t from_self s)
        (pdelay_req_in-Moves t from_self s)

  pub handle_pdelay_resp-Moves :
      (t : TimeInternal) (from_self : Bool) (s : System)
      → Moves p s (handle_pdelay_resp p t from_self s)
  handle_pdelay_resp-Moves t from_self s =
      unfold handle_pdelay_resp in
      by_mechanism s.clock.port_ds.delay_mechanism s (pdelay_resp_in p t from_self s)
        (pdelay_resp_in-Moves t from_self s)

  pub handle_pdelay_resp_follow_up-Moves :
      (s : System) → Moves p s (handle_pdelay_resp_follow_up p s)
  handle_pdelay_resp_follow_up-Moves s =
      unfold handle_pdelay_resp_follow_up in
      by_mechanism s.clock.port_ds.delay_mechanism s (pdelay_follow_up_in p s)
        (pdelay_follow_up_in-Moves s)

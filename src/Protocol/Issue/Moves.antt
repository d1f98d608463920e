-- ===== src/Protocol/Issue/Moves.antt =====
-- Sending a message in src/protocol.c, as a move of the port.
use ptpd_lwip.Protocol.{start_timer}
use ptpd_lwip.Types.Opt.{Timer, same_state, pow2ms, slave}
use ptpd_lwip.Types.Message.{MsgHeader}
use ptpd_lwip.Prelude.Int.{◌+ℤ◌, pos, eqb_ℤ, ℤ}
use ptpd_lwip.Prelude.Word.{s16}
use ptpd_lwip.Msg.Pack.{
  msg_pack_announce, msg_pack_follow_up, msg_pack_sync, msg_pack_pdelay_resp_follow_up,
  msg_pack_pdelay_resp, msg_pack_delay_resp, msg_pack_pdelay_req, msg_pack_delay_req,
}
use ptpd_lwip.Types.Network.{
  Address, Channel, multicast_addr, general_channel, peer_multicast_addr, event_channel,
}
use ptpd_lwip.Types.Time.{TimeInternal, zero_time}
use ptpd_lwip.Prelude.{
  ℕ, Bool, ◌==◌, refl, inl, inr, false, not, ◌&&◌, true, ◌≡◌, Bool-cases, arith, sym,
}
use ptpd_lwip.SysTime.{get_time, get_rand}
use ptpd_lwip.Protocol.Issue.{
  issue_announce, or_fault, on_obuf, issue_sync, sync_sent, issue_delay_req,
  issue_pdelay_resp_follow_up, issue_pdelay_req, issue_pdelay_resp, issue_delay_resp,
  issue_followup, external_time, delay_req_packed, pdelay_req_packed, pdelay_req_sent,
  delay_req_sent, issue_delay_req_timer_expired, issue_by, request_again,
}
use ptpd_lwip.Protocol.Timers.{running, timer_number}
use ptpd_lwip.Net.{
  Sent, net_send_general, net_send, net_send_peer_general, net_send_event, net_send_peer_event,
}
use ptpd_lwip.Types.Clock.{Buffer}
use ptpd_lwip.Types.System.{Port, System, on_clock, log, lwip_ptp_check_timer}
use ptpd_lwip.Bmc.Spares.{spared}
use ptpd_lwip.Protocol.Moves.{Moves, stores, faults, follows, only_calls, idle, either, IsPrompt}
use ptpd_lwip.Protocol.Issue.Timed.{net_send-system, number_eq}
use ptpd_lwip.Types.Opt.Default.{e2e, p2p, delay_disabled, DelayMechanism}
use ptpd_lwip.Types.Opt.Length

module _ (p : Port) where
  net_send-Moves :
      (buf : Buffer) (length : ℕ) (timed : Bool) (before : TimeInternal) (addr : Address)
      (handler : Channel) (s : System)
      → Moves p s (net_send p buf length timed before addr handler s).system
  unfolding running
  net_send-Moves buf length timed before addr handler s =
      elim (net_send-system p buf length timed before addr handler s) [
        | inl e ↦ rw e (idle s)
        | inr e ↦ rw e (only_calls refl (λ t. refl))
      ]

  or_fault-Moves :
      (sent : Sent) (act : System → System) {s : System}
      → Moves p s sent.system
      → Moves p sent.system (act sent.system)
      → Moves p s (or_fault p sent act)
  or_fault-Moves sent act sends acts =
      either (sent.result == 0) (λ failed. follows sends faults) (λ done. follows sends acts)

  get_time-Moves : (s : System) → Moves p s (get_time p s).1
  unfolding running get_time
  get_time-Moves s = only_calls refl (λ t. refl)

  -- A message is packed into the output buffer and sent.
  module _ (f : Buffer → Buffer) (length : ℕ) (timed : Bool) (before : TimeInternal)
      (addr : Address) (handler : Channel) (act : TimeInternal → System → System)
      (acts : (at : TimeInternal) (r : System) → Moves p r (act at r)) (s : System) where
    send-Moves :
        let sent =
          net_send p (on_obuf f s).clock.msg_obuf length timed before addr handler (on_obuf f s) in
        Moves p s (or_fault p sent (act sent.at))
    send-Moves =
        let sent =
          net_send p (on_obuf f s).clock.msg_obuf length timed before addr handler (on_obuf f s) in
        or_fault-Moves sent (act sent.at)
          (follows (stores (spared refl refl refl refl refl refl) (λ t. refl)) (
            net_send-Moves (on_obuf f s).clock.msg_obuf length timed before addr handler
              (on_obuf f s)))
          (acts sent.at sent.system)

  pub issue_announce-Moves : (s : System) → Moves p s (issue_announce p s)
  unfolding issue_announce net_send_general
  issue_announce-Moves s =
      send-Moves (msg_pack_announce s.clock) Length.announce false zero_time multicast_addr
        general_channel
        (λ at r.
          on_clock
            (λ c. record c {
              sent_announce_sequence_id = s16 (c.sent_announce_sequence_id +ℤ pos 1);
            })
            r)
        (λ at r. stores (spared refl refl refl refl refl refl) (λ t. refl)) s

  issue_followup-Moves : (t : TimeInternal) (s : System) → Moves p s (issue_followup p t s)
  unfolding issue_followup net_send_general
  issue_followup-Moves t s =
      send-Moves (λ b. msg_pack_follow_up s.clock b (external_time p t s)) Length.follow_up false
        zero_time multicast_addr general_channel (λ at r. r) (λ at r. idle r) s

  sync_sent-Moves : (at : TimeInternal) (s : System) → Moves p s (sync_sent p at s)
  unfolding sync_sent
  sync_sent-Moves at s =
      either (not (eqb_ℤ at.seconds (pos 0)) && s.clock.default_ds.two_step_flag)
        (λ late.
          follows (stores (spared refl refl refl refl refl refl) (λ t. refl))
            (issue_followup-Moves _ _))
        (λ late. stores (spared refl refl refl refl refl refl) (λ t. refl))

  pub issue_sync-Moves : (s : System) → Moves p s (issue_sync p s)
  unfolding issue_sync net_send_event
  issue_sync-Moves s =
      let (now, s1) = get_time p s in
      follows (get_time-Moves s) (
        send-Moves (λ b. msg_pack_sync s.clock b (external_time p now s1)) Length.sync true now
          multicast_addr event_channel (sync_sent p) sync_sent-Moves s1)

  issue_delay_req-Moves : (s : System) → Moves p s (issue_delay_req p s)
  unfolding issue_delay_req net_send_event delay_req_packed delay_req_sent
  issue_delay_req-Moves s =
      let (now, s1) = get_time p s in
      follows (get_time-Moves s) (
        send-Moves (λ b. msg_pack_delay_req s.clock b (external_time p now s1)) Length.delay_req
          true now multicast_addr event_channel delay_req_sent
          (λ at r. stores (spared refl refl refl refl refl refl) (λ t. refl)) s1)

  issue_pdelay_req-Moves : (s : System) → Moves p s (issue_pdelay_req p s)
  unfolding issue_pdelay_req net_send_peer_event pdelay_req_packed pdelay_req_sent
  issue_pdelay_req-Moves s =
      let (now, s1) = get_time p s in
      follows (get_time-Moves s) (
        send-Moves (λ b. msg_pack_pdelay_req s.clock b (external_time p now s1)) Length.pdelay_req
          true now peer_multicast_addr event_channel pdelay_req_sent
          (λ at r. stores (spared refl refl refl refl refl refl) (λ t. refl)) s1)

  pub issue_delay_resp-Moves :
      (t : TimeInternal) (header : MsgHeader) (s : System)
      → Moves p s (issue_delay_resp p t header s)
  unfolding issue_delay_resp net_send_general
  issue_delay_resp-Moves t header s =
      send-Moves (λ b. msg_pack_delay_resp s.clock b header (external_time p t s))
        Length.pdelay_resp false zero_time multicast_addr general_channel (λ at r. r)
        (λ at r. idle r) s

  pub issue_pdelay_resp-Moves :
      (t : TimeInternal) (header : MsgHeader) (s : System)
      → Moves p s (issue_pdelay_resp p t header s).1
  unfolding issue_pdelay_resp net_send_peer_event
  issue_pdelay_resp-Moves t header s =
      send-Moves (λ b. msg_pack_pdelay_resp b header (external_time p t s)) Length.pdelay_resp true
        t peer_multicast_addr event_channel (λ at r. r) (λ at r. idle r) s

  pub issue_pdelay_resp_follow_up-Moves :
      (t : TimeInternal) (header : MsgHeader) (s : System)
      → Moves p s (issue_pdelay_resp_follow_up p t header s)
  unfolding issue_pdelay_resp_follow_up net_send_peer_general
  issue_pdelay_resp_follow_up-Moves t header s =
      send-Moves (λ b. msg_pack_pdelay_resp_follow_up b header (external_time p t s))
        Length.pdelay_resp_follow_up false zero_time peer_multicast_addr general_channel (λ at r. r)
        (λ at r. idle r) s

-- A timer that runs is started again.
again :
    (t : Timer) (ms : ℕ) (s : System)
    → running t s.calls ≡ true
    → (u : Timer) → running u (start_timer t ms s).calls ≡ running u s.calls
unfolding running
again t ms s runs u = elim (Bool-cases (timer_number u == timer_number t)) [
  | inl same ↦ rw same (rw (number_eq u t (ground arith)) (sym runs))
  | inr other ↦ rw other refl
]

module _ (p : Port) (prompt : IsPrompt p) where
  request_again-Moves :
      (t : Timer) (interval : ℤ) (issue : System → System)
      → ((s : System) → Moves p s (issue s))
      → (s : System) → Moves p s (request_again p t interval issue s)
  unfolding request_again running get_rand
  request_again-Moves t interval issue issues s =
      let rand_max = pow2ms (interval +ℤ pos 1) in
      let asked = (get_rand p rand_max (log (lwip_ptp_check_timer t) s)).1 in
      let ms = (get_rand p rand_max (log (lwip_ptp_check_timer t) s)).0 in
      either (p.expired s.calls t)
        (λ due.
          follows
            (stores (spared refl refl refl refl refl refl)
              (again t ms asked (prompt.runs s.calls t due)))
            (issues (start_timer t ms asked)))
        (λ early. only_calls refl (λ u. refl))

  issue_by-Moves : (m : DelayMechanism) (s : System) → Moves p s (issue_by p m s)
  unfolding issue_by
  issue_by-Moves e2e s =
      either (same_state s.clock.port_ds.port_state slave)
        (λ at. request_again-Moves _ _ (issue_delay_req p) (issue_delay_req-Moves p) s)
        (λ away. idle s)
  issue_by-Moves p2p s = request_again-Moves _ _ (issue_pdelay_req p) (issue_pdelay_req-Moves p) s
  issue_by-Moves delay_disabled s = idle s

  pub issue_delay_req_timer_expired-Moves :
      (s : System) → Moves p s (issue_delay_req_timer_expired p s)
  unfolding issue_delay_req_timer_expired
  issue_delay_req_timer_expired-Moves s = issue_by-Moves s.clock.port_ds.delay_mechanism s

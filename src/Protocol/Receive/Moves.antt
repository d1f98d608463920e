-- ===== src/Protocol/Receive/Moves.antt =====
-- `handle` of src/protocol.c, as a move of the port.
use mathlib.Core.Path.{subst}
use ptpd_lwip.Net.Receive.Outcome.{net_recv-system}
use ptpd_lwip.Protocol.Timers.{running}
use ptpd_lwip.Protocol.Handle.Peer.Moves.{
  handle_pdelay_req-Moves, handle_pdelay_resp-Moves, handle_pdelay_resp_follow_up-Moves,
}
use ptpd_lwip.Protocol.Handle.Delay.Moves.{handle_delay_req-Moves, handle_delay_resp-Moves}
use ptpd_lwip.Protocol.Handle.{is_short}
use ptpd_lwip.Protocol.Handle.Moves.{
  handle_announce-Moves, handle_sync-Moves, handle_follow_up-Moves,
}
use ptpd_lwip.Types.Network.{Channel, general_channel, event_channel}
use ptpd_lwip.Types.Clock.{Buffer}
use ptpd_lwip.Types.Time.{TimeInternal, zero_time}
use ptpd_lwip.Net.Receive.{net_recv_general, net_recv, net_recv_event}
use ptpd_lwip.Prelude.{ℕ, Bool, refl, true, ◌==◌, inl, sym, inr}
use ptpd_lwip.Types.System.{Port, System, on_clock}
use ptpd_lwip.Bmc.Spares.{spared}
use ptpd_lwip.Protocol.Moves.{Moves, stores, faults, follows, only_calls, idle, either, IsPrompt}
use ptpd_lwip.Protocol.Receive.{
  handle, handle_by, dispatch, examine, receive, receive_general, is_ours, unpack_header,
  is_from_self, without_latency,
}
use ptpd_lwip.Types.Opt.MessageType
use ptpd_lwip.Types.Opt.Length

module _ (p : Port) where
  net_recv-Moves :
      (buf : Buffer) (before : TimeInternal) (handler : Channel) (s : System)
      → Moves p s (receive (net_recv p buf before handler s))
  unfolding running
  net_recv-Moves buf before handler s =
      follows
        (elim (net_recv-system p buf before handler s) [
          | inl e ↦ subst (λ r. Moves p s r) (sym e) (only_calls refl (λ t. refl))
          | inr e ↦ subst (λ r. Moves p s r) (sym e) (only_calls refl (λ t. refl))
        ])
        (stores (spared refl refl refl refl refl refl) (λ t. refl))

module _ (p : Port) (prompt : IsPrompt p) where
  handle_by-Moves :
      (type : ℕ) (t : TimeInternal) (from_self : Bool) (s : System)
      → Moves p s (handle_by p type t from_self s)
  unfolding handle_by
  handle_by-Moves type t from_self s =
      either (type == MessageType.announce) (λ a. handle_announce-Moves p from_self s)
        (λ a.
          either (type == MessageType.sync) (λ b. handle_sync-Moves p prompt t from_self s)
            (λ b.
              either (type == MessageType.follow_up)
                (λ c. handle_follow_up-Moves p prompt from_self s)
                (λ c.
                  either (type == MessageType.delay_req) (λ d. handle_delay_req-Moves p t s)
                    (λ d.
                      either (type == MessageType.pdelay_req)
                        (λ e. handle_pdelay_req-Moves p t from_self s)
                        (λ e.
                          either (type == MessageType.delay_resp) (λ f. handle_delay_resp-Moves p s)
                            (λ f.
                              either (type == MessageType.pdelay_resp)
                                (λ g. handle_pdelay_resp-Moves p t from_self s)
                                (λ g.
                                  either (type == MessageType.pdelay_resp_follow_up)
                                    (λ h. handle_pdelay_resp_follow_up-Moves p s)
                                    (λ h.
                                      either (type == MessageType.management) (λ i. idle s)
                                        (λ i.
                                          either (type == MessageType.signaling) (λ j. idle s)
                                            (λ j. idle s))))))))))

  dispatch-Moves : (t : TimeInternal) (s : System) → Moves p s (dispatch p t s)
  unfolding dispatch
  dispatch-Moves t before =
      let s = on_clock unpack_header before in
      follows (stores (spared refl refl refl refl refl refl) (λ u. refl)) (
        either (is_ours s.clock)
          (λ ours.
            handle_by-Moves s.clock.msg_tmp_header.message_type (without_latency s.clock t)
              (is_from_self s.clock) s)
          (λ other. idle s))

  examine-Moves : (t : TimeInternal) (s : System) → Moves p s (examine p t s)
  unfolding examine
  examine-Moves t before =
      let s = on_clock (λ c. record c { message_activity = true }) before in
      follows (stores (spared refl refl refl refl refl refl) (λ u. refl))
        (either (is_short Length.header s) (λ short. faults) (λ whole. dispatch-Moves t s))

  receive_general-Moves : (t : TimeInternal) (s : System) → Moves p s (receive_general p t s)
  unfolding receive_general net_recv_general
  receive_general-Moves t s =
      let r = net_recv p s.clock.msg_ibuf t general_channel s in
      let received = net_recv-Moves p s.clock.msg_ibuf t general_channel s in
      either (r.length == 0) (λ nothing. received)
        (λ some. follows received (examine-Moves r.at (receive r)))

  pub handle-Moves : (s : System) → Moves p s (handle p s)
  handle-Moves s =
      let r = net_recv p s.clock.msg_ibuf zero_time event_channel s in
      let received = net_recv-Moves p s.clock.msg_ibuf zero_time event_channel s in
      unfold handle net_recv_event in
      either (r.length == 0) (λ nothing. follows received (receive_general-Moves r.at (receive r)))
        (λ some. follows received (examine-Moves r.at (receive r)))

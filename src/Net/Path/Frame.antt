-- ===== src/Net/Path/Frame.antt =====
-- The clock while the sockets of src/net.c are opened and closed.
use ptpd_lwip.Types.Network.{Channel}
use ptpd_lwip.Types.Clock.{PtpClock}
use ptpd_lwip.Prelude.{
  Option, Bool, ◌≡◌, ℕ, inl, ◌==◌, none, if◌then◌else◌, ◌∙◌, refl, ◌⊎◌, inr, true, some, false,
}
use ptpd_lwip.Net.Path.{
  net_init, net_shutdown, net_handler_init, net_handler_shutdown, bind_handler, close_pcb,
  free_inbox, free_outbox, leave_group, leave_peer_group, join_groups, handler_of,
}
use ptpd_lwip.Types.System.{event_channel, general_channel, System, Port, log, lock_tcpip_core}
use ptpd_lwip.Types.Opt.{ptp_event_port, ptp_general_port, default_ptp_domain_address}

Option-cases : (o : Option ℕ) → (o ≡ none) ⊎ ((n : ℕ) × (o ≡ some n))
Option-cases none = inl refl
Option-cases (some n) = inr (n, refl)

-- A test on two systems with the same clock.
either :
    {c : PtpClock} (b : Bool) (x y : System)
    → x.clock ≡ c
    → y.clock ≡ c
    → (if b then x else y).clock ≡ c
either true x y m n = m
either false x y m n = n

module _ (p : Port) (ch : Channel) where
  bind_handler-clock :
      (default_addr port : ℕ) (s : System) → (bind_handler p ch default_addr port s).clock ≡ s.clock
  unfolding bind_handler
  bind_handler-clock default_addr port s = elim (Option-cases (p.new_pcb s.calls)) [
    | inl e ↦ rw (e, bind_handler) refl
    | inr (n, e) ↦ rw (e, bind_handler) refl
  ]

  net_handler_init-clock :
      (default_addr port : ℕ) (s : System)
      → (net_handler_init p ch default_addr port s).clock ≡ s.clock
  unfolding net_handler_init
  net_handler_init-clock default_addr port s = bind_handler-clock default_addr port _

  close_pcb-clock : (s : System) → (close_pcb ch s).clock ≡ s.clock
  unfolding close_pcb
  close_pcb-clock s = elim (Option-cases (handler_of ch s.net_path).pcb) [
    | inl e ↦ rw (e, close_pcb) refl
    | inr (n, e) ↦ rw (e, close_pcb) refl
  ]

  free-clock :
      (s : System) → ((free_inbox p ch s).clock ≡ s.clock) × ((free_outbox p ch s).clock ≡ s.clock)
  unfolding free_inbox free_outbox
  free-clock s = (
    either (handler_of ch s.net_path).inbox _ _ refl refl,
    either (handler_of ch s.net_path).outbox _ _ refl refl,
  )

  net_handler_shutdown-clock : (s : System) → (net_handler_shutdown p ch s).clock ≡ s.clock
  unfolding net_handler_shutdown
  net_handler_shutdown-clock s =
      (free-clock (free_inbox p ch (close_pcb ch s))).1
      ∙ (free-clock (close_pcb ch s)).0
      ∙ close_pcb-clock s

join_groups-clock : (s : System) → (join_groups s).clock ≡ s.clock
unfolding join_groups
join_groups-clock s = refl

pub net_init-clock : (p : Port) (s : System) → (net_init p s).1.clock ≡ s.clock
net_init-clock p s =
    let s1 = join_groups (log lock_tcpip_core s) in
    let s2 = net_handler_init p event_channel default_ptp_domain_address ptp_event_port s1 in
    unfold net_init in
    (net_handler_init-clock p general_channel default_ptp_domain_address ptp_general_port s2
      ∙ net_handler_init-clock p event_channel default_ptp_domain_address ptp_event_port s1
      ∙ join_groups-clock (log lock_tcpip_core s))

leave_group-clock : (s : System) → (leave_group s).clock ≡ s.clock
unfolding leave_group
leave_group-clock s = either (s.net_path.multicast_addr == 0) _ _ refl refl

leave_peer_group-clock : (s : System) → (leave_peer_group s).clock ≡ s.clock
unfolding leave_peer_group
leave_peer_group-clock s = either (s.net_path.peer_multicast_addr == 0) _ _ refl refl

pub net_shutdown-clock : (p : Port) (s : System) → (net_shutdown p s).clock ≡ s.clock
net_shutdown-clock p s =
    let s1 = leave_group (log lock_tcpip_core s) in
    let s2 = leave_peer_group s1 in
    unfold net_shutdown in
    (net_handler_shutdown-clock p general_channel (net_handler_shutdown p event_channel s2)
      ∙ net_handler_shutdown-clock p event_channel s2
      ∙ leave_peer_group-clock s1
      ∙ leave_group-clock (log lock_tcpip_core s))

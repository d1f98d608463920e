-- ===== src/Net/Path/Guard/Restart.antt =====
-- `netShutdown` and then `netInit` of src/net.c, as `doInit` calls them.
use ptpd_lwip.Types.Network.{Channel}
use ptpd_lwip.Net.Path.Guard.{
  is_guarded, IsOrderly, IsOrderlyAt, InLock, both_pcbs, groups, bound, is_locked, removed,
  join_groups-InLock, leave_peer_group-InLock, leave_group-InLock, joined, event_opened,
  net_handler_init-InLock, net_handler_shutdown-InLock, left, event_closed, general_closed,
  groups_left,
}
use ptpd_lwip.Types.Opt.{
  default_ptp_domain_address, ptp_event_port, ptp_general_port, peer_ptp_domain_address,
}
use ptpd_lwip.Prelude.{ℕ, ◌≡◌, false, arith, ◌∙◌, ap, refl}
use ptpd_lwip.Net.Path.{
  net_init, net_shutdown, net_handler_init, net_handler_shutdown, bind_handler, leave_group,
  leave_peer_group, join_groups,
}
use ptpd_lwip.Types.System.{
  event_channel, general_channel, lock_tcpip_core, unlock_tcpip_core, System, Port, log,
}

-- The path with no address in it, as `netShutdown` leaves it.
abbrev cleared : System → System
cleared s = record s {
  net_path = record (s.net_path) { multicast_addr = 0; peer_multicast_addr = 0 };
}

module _ (n a : ℕ) where
  locked-InLock : (s : System) → IsOrderlyAt n a s → InLock n a (log lock_tcpip_core s)
  unfolding is_guarded bound removed joined left
  locked-InLock s h = ground arith

  cleared-InLock : (s : System) → InLock n a s → groups a s.net_path ≡ 0 → InLock n a (cleared s)
  cleared-InLock s h empty = ground arith

  unlocked-IsOrderly :
      (s : System)
      → InLock n a s
      → IsOrderlyAt n a (log unlock_tcpip_core s)
        × (is_locked (log unlock_tcpip_core s).calls ≡ false)
  unfolding is_guarded bound removed joined left
  unlocked-IsOrderly s h = ground arith

  -- `netShutdown` leaves nothing open.
  shutdown-empty :
      (p : Port) (s : System)
      → IsOrderlyAt n a s
      → IsOrderlyAt n a (net_shutdown p s)
        × (is_locked (net_shutdown p s).calls ≡ false)
        × (both_pcbs n (net_shutdown p s) ≡ (0, 0))
        × (groups a (net_shutdown p s).net_path ≡ 0)
  shutdown-empty p s h =
      let s0 = leave_group (log lock_tcpip_core s) in
      let s1 = leave_peer_group s0 in
      let s2 = net_handler_shutdown p event_channel s1 in
      let s3 = net_handler_shutdown p general_channel s2 in
      let h1 = leave_peer_group-InLock n a s0 (leave_group-InLock n a _ (locked-InLock s h)) in
      let h3 =
        net_handler_shutdown-InLock n a p general_channel s2
          (net_handler_shutdown-InLock n a p event_channel s1 h1) in
      let (event, event_groups) = event_closed n a p s1 in
      let (general, general_groups) = general_closed n a p s2 in
      let empty : groups a s3.net_path ≡ 0 =
        general_groups ∙ event_groups ∙ groups_left n a (log lock_tcpip_core s) in
      let (orderly, unlocked) = unlocked-IsOrderly (cleared s3) (cleared-InLock s3 h3 empty) in
      let pcbs : both_pcbs n s3 ≡ (0, 0) = general ∙ ap (λ u. (u.0, 0)) event in
      unfold net_shutdown in (orderly, unlocked, pcbs, refl)

  same_pcbs : (s : System) → both_pcbs n (join_groups s) ≡ both_pcbs n s
  unfolding join_groups
  same_pcbs s = refl

  -- `netInit` on a path that holds nothing.
  init-full :
      (p : Port) (s : System)
      → IsOrderlyAt n a s
      → both_pcbs n s ≡ (0, 0)
      → groups a s.net_path ≡ 0
      → IsOrderlyAt n a (net_init p s).1 × (is_locked (net_init p s).1.calls ≡ false)
  init-full p s h closed empty =
      let s1 = join_groups (log lock_tcpip_core s) in
      let addr = default_ptp_domain_address in
      let s2 = net_handler_init p event_channel addr ptp_event_port s1 in
      let s3 = net_handler_init p general_channel addr ptp_general_port s2 in
      let h1 = join_groups-InLock n a (log lock_tcpip_core s) (locked-InLock s h) empty in
      let pcbs = same_pcbs (log lock_tcpip_core s) ∙ closed in
      let (general, event_groups) = event_opened n a p addr ptp_event_port s1 in
      let h2 =
        net_handler_init-InLock n a p event_channel addr ptp_event_port s1 h1
          (ap (λ u. u.0) pcbs) in
      let h3 =
        net_handler_init-InLock n a p general_channel addr ptp_general_port s2 h2
          (general ∙ ap (λ u. u.1) pcbs) in
      unfold net_init in unlocked-IsOrderly s3 h3

abbrev addresses : System → ℕ × ℕ
addresses s = (s.net_path.multicast_addr, s.net_path.peer_multicast_addr)

opened-addresses :
    (p : Port) (ch : Channel) (default_addr port : ℕ) (s : System)
    → addresses (net_handler_init p ch default_addr port s) ≡ addresses s
unfolding net_handler_init bind_handler
opened-addresses p event_channel default_addr port s = ground arith
opened-addresses p general_channel default_addr port s = ground arith

init-addresses :
    (p : Port) (s : System)
    → addresses (net_init p s).1 ≡ (default_ptp_domain_address, peer_ptp_domain_address)
init-addresses p s =
    let s1 = join_groups (log lock_tcpip_core s) in
    let addr = default_ptp_domain_address in
    let s2 = net_handler_init p event_channel addr ptp_event_port s1 in
    unfold net_init in
    (opened-addresses p general_channel addr ptp_general_port s2
      ∙ opened-addresses p event_channel addr ptp_event_port s1
      ∙ unfold join_groups in refl)

at : (n a : ℕ) (s : System) → IsOrderly s → IsOrderlyAt n a s
at n a s h = record {
  guarded = h.guarded;
  sockets_held = h.sockets_held n;
  groups_held = h.groups_held a;
}

-- If lwIP was called under its core lock alone, and each control block was bound, and each group
-- joined, as often as it was removed or left and once more for each place in which the path holds
-- it, then all this is still so after `netShutdown` and `netInit`: every control block and group
-- that was open before is given back. The lock is released then, and the path holds the two groups
-- of the standard.
pub restart-IsOrderly :
    (p : Port) (s : System)
    → IsOrderly s
    → IsOrderly (net_init p (net_shutdown p s)).1
      × (is_locked (net_init p (net_shutdown p s)).1.calls ≡ false)
      × ((net_init p (net_shutdown p s)).1.net_path.multicast_addr ≡ default_ptp_domain_address)
      × ((net_init p (net_shutdown p s)).1.net_path.peer_multicast_addr ≡ peer_ptp_domain_address)
restart-IsOrderly p s h =
    let both = init-addresses p (net_shutdown p s) in
    (
      record {
        guarded = (again 0 0).0.guarded;
        sockets_held = λ n. (again n 0).0.sockets_held;
        groups_held = λ a. (again 0 a).0.groups_held;
      },
      (again 0 0).1,
      ap (λ u. u.0) both,
      ap (λ u. u.1) both,
    )
  where
    again :
        (n a : ℕ)
        → IsOrderlyAt n a (net_init p (net_shutdown p s)).1
          × (is_locked (net_init p (net_shutdown p s)).1.calls ≡ false)
    again n a =
        let (orderly, unlocked, closed, empty) = shutdown-empty n a p s (at n a s h) in
        init-full n a p (net_shutdown p s) orderly closed empty

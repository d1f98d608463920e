-- ===== src/Net/Path/Guard.antt =====
-- The core lock, the sockets and the memberships under `netInit` and `netShutdown` of src/net.c.
pub mod Restart
use ptpd_lwip.Types.Opt.{default_ptp_domain_address, ptp_event_port, ptp_general_port}
use ptpd_lwip.Prelude.{
  ℕ, List, if◌then◌else◌, ◌+◌, ◌≡◌, ◌∷◌, Bool, [], true, false, ◌==◌, not, ◌||◌, ◌&&◌, arith, ◌∙◌,
  ap, refl,
}
use ptpd_lwip.Prelude.{none, some}
use ptpd_lwip.Net.Path.{
  net_init, net_shutdown, net_handler_init, net_handler_shutdown, bind_handler, close_pcb,
  free_inbox, free_outbox, leave_group, leave_peer_group, join_groups, handler_of,
}
use ptpd_lwip.Types.Network.{NetPath, PacketHandler, Channel}
use ptpd_lwip.Types.System.{
  event_channel, general_channel, lock_tcpip_core, unlock_tcpip_core, igmp_joingroup,
  igmp_leavegroup, udp_new, mcast_ip4, udp_recv, udp_disconnect, udp_remove, udp_bind, System, Call,
  Port, log,
}

-- Whether the core lock is held.
unfoldable pub is_locked : List Call → Bool
is_locked [] = false
is_locked (call ∷ calls) =
    let before = is_locked calls in
    elim call [ lock_tcpip_core ↦ true | unlock_tcpip_core ↦ false | _ ↦ before ]

-- The calls of lwIP that are to be made under the core lock.
abbrev pub is_raw : Call → Bool
is_raw (igmp_joingroup a) = true
is_raw (igmp_leavegroup a) = true
is_raw udp_new = true
is_raw (mcast_ip4 n a) = true
is_raw (udp_recv n) = true
is_raw (udp_disconnect n) = true
is_raw (udp_remove n) = true
is_raw (udp_bind n port) = true
is_raw _ = false

unfoldable pub is_guarded : List Call → Bool
unfolding is_locked
is_guarded [] = true
is_guarded (call ∷ calls) = (not (is_raw call) || is_locked calls) && is_guarded calls

abbrev pub one_if : Bool → ℕ
one_if test = if test then 1 else 0

-- How often the control block `n` was bound and removed, and the group `a` joined and left.
unfoldable pub bound : ℕ → List Call → ℕ
bound n [] = 0
bound n (call ∷ calls) =
    let before = bound n calls in
    elim call [ udp_bind m port ↦ before + one_if (m == n) | _ ↦ before ]

unfoldable pub removed : ℕ → List Call → ℕ
removed n [] = 0
removed n (call ∷ calls) =
    let before = removed n calls in
    elim call [ udp_remove m ↦ before + one_if (m == n) | _ ↦ before ]

unfoldable pub joined : ℕ → List Call → ℕ
joined a [] = 0
joined a (call ∷ calls) =
    let before = joined a calls in
    elim call [ igmp_joingroup b ↦ before + one_if (b == a) | _ ↦ before ]

unfoldable pub left : ℕ → List Call → ℕ
left a [] = 0
left a (call ∷ calls) =
    let before = left a calls in
    elim call [ igmp_leavegroup b ↦ before + one_if (b == a) | _ ↦ before ]

-- How often the path holds them; an address 0 stands for no group.
abbrev pub has_pcb : ℕ → PacketHandler → ℕ
has_pcb n h = elim h.pcb [ none ↦ 0 | some m ↦ one_if (m == n) ]

abbrev pub sockets : ℕ → NetPath → ℕ
sockets n path = has_pcb n path.event_handler + has_pcb n path.general_handler

abbrev pub is_member : ℕ → ℕ → ℕ
is_member a addr = if addr == 0 then 0 else one_if (addr == a)

abbrev pub groups : ℕ → NetPath → ℕ
groups a path = is_member a path.multicast_addr + is_member a path.peer_multicast_addr

-- lwIP was called under the lock alone, and each control block and each group was bound or joined
-- as often as it was removed or left, and once more for each place in which the path holds it.
pub record IsOrderly (s : System) : Type 0 where
  pub guarded : is_guarded s.calls ≡ true
  pub sockets_held : (n : ℕ) → bound n s.calls ≡ removed n s.calls + sockets n s.net_path
  pub groups_held : (a : ℕ) → joined a s.calls ≡ left a s.calls + groups a s.net_path

-- The same of one control block and one group.
record IsOrderlyAt (n a : ℕ) (s : System) : Type 0 where
  guarded : is_guarded s.calls ≡ true
  sockets_held : bound n s.calls ≡ removed n s.calls + sockets n s.net_path
  groups_held : joined a s.calls ≡ left a s.calls + groups a s.net_path

record InLock (n a : ℕ) (s : System) : Type 0 where
  orderly : IsOrderlyAt n a s
  locked : is_locked s.calls ≡ true

abbrev both_pcbs : ℕ → System → ℕ × ℕ
both_pcbs n s = (has_pcb n s.net_path.event_handler, has_pcb n s.net_path.general_handler)

module _ (n a : ℕ) where
  -- Each step keeps this, where the ones that open have nothing open before.
  close_pcb-InLock : (ch : Channel) (s : System) → InLock n a s → InLock n a (close_pcb ch s)
  unfolding close_pcb is_guarded bound removed joined left
  close_pcb-InLock event_channel s h = ground arith
  close_pcb-InLock general_channel s h = ground arith

  free_inbox-InLock :
      (p : Port) (ch : Channel) (s : System) → InLock n a s → InLock n a (free_inbox p ch s)
  unfolding free_inbox is_guarded bound removed joined left
  free_inbox-InLock p event_channel s h = ground arith
  free_inbox-InLock p general_channel s h = ground arith

  free_outbox-InLock :
      (p : Port) (ch : Channel) (s : System) → InLock n a s → InLock n a (free_outbox p ch s)
  unfolding free_outbox is_guarded bound removed joined left
  free_outbox-InLock p event_channel s h = ground arith
  free_outbox-InLock p general_channel s h = ground arith

  leave_group-InLock : (s : System) → InLock n a s → InLock n a (leave_group s)
  unfolding leave_group is_guarded bound removed joined left
  leave_group-InLock s h = ground arith

  leave_peer_group-InLock : (s : System) → InLock n a s → InLock n a (leave_peer_group s)
  unfolding leave_peer_group is_guarded bound removed joined left
  leave_peer_group-InLock s h = ground arith

  join_groups-InLock :
      (s : System) → InLock n a s → groups a s.net_path ≡ 0 → InLock n a (join_groups s)
  unfolding join_groups is_guarded bound removed joined left
  join_groups-InLock s h empty = ground arith

  bind_handler-InLock :
      (p : Port) (ch : Channel) (default_addr port : ℕ) (s : System)
      → InLock n a s
      → has_pcb n (handler_of ch s.net_path) ≡ 0
      → InLock n a (bind_handler p ch default_addr port s)
  unfolding bind_handler is_guarded bound removed joined left
  bind_handler-InLock p event_channel default_addr port s h empty = ground arith
  bind_handler-InLock p general_channel default_addr port s h empty = ground arith

  net_handler_shutdown-InLock :
      (p : Port) (ch : Channel) (s : System)
      → InLock n a s
      → InLock n a (net_handler_shutdown p ch s)
  unfolding net_handler_shutdown
  net_handler_shutdown-InLock p ch s h =
      free_outbox-InLock p ch _ (free_inbox-InLock p ch _ (close_pcb-InLock ch s h))

  -- What closing a handler leaves.
  event_closed :
      (p : Port) (s : System)
      → (both_pcbs n (net_handler_shutdown p event_channel s)
          ≡ (0, has_pcb n s.net_path.general_handler))
        × (groups a (net_handler_shutdown p event_channel s).net_path ≡ groups a s.net_path)
  unfolding net_handler_shutdown close_pcb free_inbox free_outbox
  event_closed p s = ground arith

  general_closed :
      (p : Port) (s : System)
      → (both_pcbs n (net_handler_shutdown p general_channel s)
          ≡ (has_pcb n s.net_path.event_handler, 0))
        × (groups a (net_handler_shutdown p general_channel s).net_path ≡ groups a s.net_path)
  unfolding net_handler_shutdown close_pcb free_inbox free_outbox
  general_closed p s = ground arith

  groups_left : (s : System) → groups a (leave_peer_group (leave_group s)).net_path ≡ 0
  unfolding leave_peer_group leave_group
  groups_left s = ground arith

  -- What opening a handler leaves.
  event_opened :
      (p : Port) (default_addr port : ℕ) (s : System)
      → (has_pcb n (net_handler_init p event_channel default_addr port s).net_path.general_handler
          ≡ has_pcb n s.net_path.general_handler)
        × (groups a (net_handler_init p event_channel default_addr port s).net_path
            ≡ groups a s.net_path)
  unfolding net_handler_init bind_handler
  event_opened p default_addr port s = ground arith

  net_handler_init-InLock :
      (p : Port) (ch : Channel) (default_addr port : ℕ) (s : System)
      → InLock n a s
      → has_pcb n (handler_of ch s.net_path) ≡ 0
      → InLock n a (net_handler_init p ch default_addr port s)
  unfolding net_handler_init bind_handler is_guarded bound removed joined left
  net_handler_init-InLock p event_channel default_addr port s h empty = ground arith
  net_handler_init-InLock p general_channel default_addr port s h empty = ground arith

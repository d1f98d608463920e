-- ===== src/Protocol/Issue/Timed.antt =====
-- The timers while src/protocol.c sends a message.
use ptpd_lwip.Prelude.Int.{ℤ, ◌+ℤ◌, pos}
use ptpd_lwip.SysTime.{get_rand, get_time}
use ptpd_lwip.Types.Time.{TimeInternal}
use ptpd_lwip.Protocol.Issue.{
  or_fault, issue_pdelay_req, issue_delay_req, issue_by, delay_req_packed, request_again,
  pdelay_req_packed, delay_req_sent, pdelay_req_sent, issue_delay_req_timer_expired,
}
use ptpd_lwip.Protocol.{to_state, start_timer}
use ptpd_lwip.Types.Opt.{
  Timer, faulty, state_number, pow2ms, pdelayreq_interval_timer, same_state, slave, PortState,
}
use ptpd_lwip.Types.Clock.{Buffer}
use ptpd_lwip.Protocol.Timers.Agree.{IsTimed, to_state-IsTimed}
use ptpd_lwip.Protocol.Timers.{running, has_timer, timer_number}
use ptpd_lwip.Net.{net_send, Sent, net_send_event, net_send_peer_event}
use ptpd_lwip.Types.System.{
  System, Port, Address, Channel, log, net_post, lwip_ptp_check_timer, peer_multicast_addr,
  multicast_addr, event_channel,
}
use ptpd_lwip.Types.Opt.Default.{e2e, p2p, delay_disabled, DelayMechanism}
use ptpd_lwip.Types.Opt.Length
use ptpd_lwip.Types.Opt.{
  pdelayreq_interval_timer, delayreq_interval_timer, sync_interval_timer, announce_receipt_timer,
  announce_interval_timer, qualification_timeout, slave,
}
use ptpd_lwip.Prelude.{
  arith, ◌≡◌, ℕ, ◌∙◌, Bool, ap, Bool-cases, ◌==◌, inl, sym, inr, ◌⊎◌, refl, true, ◌||◌,
}

-- Calls that are not about timers, and stores outside `portDS`, change nothing.
same-IsTimed :
    (s r : System)
    → ((t : Timer) → running t r.calls ≡ running t s.calls)
    → r.clock.port_ds ≡ s.clock.port_ds
    → IsTimed s
    → IsTimed r
same-IsTimed s r same_calls same_port timed = record {
  timers = λ t.
      same_calls t
      ∙ timed.timers t
      ∙ ap (λ d. has_timer d.delay_mechanism d.port_state t) (sym same_port);
}

pub fault-IsTimed : (p : Port) (s : System) → IsTimed s → IsTimed (to_state p faulty s)
fault-IsTimed p s timed =
    (to_state-IsTimed p faulty s timed (λ e. absurd (ground (arith, ap state_number e)))).1

or_fault-IsTimed :
    (p : Port) (sent : Sent) (act : System → System)
    → IsTimed sent.system
    → (IsTimed sent.system → IsTimed (act sent.system))
    → IsTimed (or_fault p sent act)
or_fault-IsTimed p sent act timed acts = elim (Bool-cases (sent.result == 0)) [
  | inl failed ↦ rw failed (fault-IsTimed p sent.system timed)
  | inr done ↦ rw done (acts timed)
]

pub net_send-system :
    (p : Port) (buf : Buffer) (length : ℕ) (timed : Bool) (before : TimeInternal) (addr : Address)
    (handler : Channel) (s : System)
    → ((net_send p buf length timed before addr handler s).system ≡ s)
      ⊎ ((net_send p buf length timed before addr handler s).system
          ≡ log (net_post handler addr buf length) s)
unfolding net_send
net_send-system p buf length timed before addr handler s = ground arith

net_send-IsTimed :
    (p : Port) (buf : Buffer) (length : ℕ) (timed : Bool) (before : TimeInternal) (addr : Address)
    (handler : Channel) (s : System)
    → IsTimed s
    → IsTimed (net_send p buf length timed before addr handler s).system
unfolding running
net_send-IsTimed p buf length timed before addr handler s h =
    elim (net_send-system p buf length timed before addr handler s) [
      | inl e ↦ rw e h
      | inr e ↦ rw e (same-IsTimed s _ (λ t. refl) refl h)
    ]

-- A timer of the state is started again.
pub number_eq : (u v : Timer) → timer_number u ≡ timer_number v → u ≡ v
number_eq pdelayreq_interval_timer pdelayreq_interval_timer e = refl
number_eq delayreq_interval_timer delayreq_interval_timer e = refl
number_eq sync_interval_timer sync_interval_timer e = refl
number_eq announce_receipt_timer announce_receipt_timer e = refl
number_eq announce_interval_timer announce_interval_timer e = refl
number_eq qualification_timeout qualification_timeout e = refl
number_eq u v e = absurd (omega (arith, e))

pub restart-IsTimed :
    (t : Timer) (ms : ℕ) (s : System)
    → has_timer s.clock.port_ds.delay_mechanism s.clock.port_ds.port_state t ≡ true
    → IsTimed s
    → IsTimed (start_timer t ms s)
unfolding running
restart-IsTimed t ms s has timed = record { timers = λ u. restarted u }
  where
    restarted :
        (u : Timer)
        → ((timer_number u == timer_number t) || running u s.calls)
          ≡ has_timer s.clock.port_ds.delay_mechanism s.clock.port_ds.port_state u
    restarted u = elim (Bool-cases (timer_number u == timer_number t)) [
      | inl same ↦ rw same (rw (number_eq u t (ground arith)) (sym has))
      | inr other ↦ rw other (timed.timers u)
    ]

asked-IsTimed :
    (p : Port) (t : Timer) (rand_max ms : ℕ) (s : System)
    → has_timer s.clock.port_ds.delay_mechanism s.clock.port_ds.port_state t ≡ true
    → IsTimed s
    → IsTimed (start_timer t ms (get_rand p rand_max (log (lwip_ptp_check_timer t) s)).1)
unfolding running get_rand
asked-IsTimed p t rand_max ms s has timed =
    restart-IsTimed t ms (get_rand p rand_max (log (lwip_ptp_check_timer t) s)).1 has (
      same-IsTimed s (get_rand p rand_max (log (lwip_ptp_check_timer t) s)).1 (λ u. refl) refl
        timed)

packed-IsTimed :
    (p : Port) (s : System)
    → IsTimed s
    → IsTimed (delay_req_packed p s) × IsTimed (pdelay_req_packed p s)
unfolding running get_time delay_req_packed pdelay_req_packed
packed-IsTimed p s timed = (
  same-IsTimed s (delay_req_packed p s) (λ t. refl) refl timed,
  same-IsTimed s (pdelay_req_packed p s) (λ t. refl) refl timed,
)

sent-IsTimed :
    (at : TimeInternal) (s : System)
    → IsTimed s
    → IsTimed (delay_req_sent at s) × IsTimed (pdelay_req_sent at s)
unfolding delay_req_sent pdelay_req_sent
sent-IsTimed at s timed = (
  same-IsTimed s (delay_req_sent at s) (λ t. refl) refl timed,
  same-IsTimed s (pdelay_req_sent at s) (λ t. refl) refl timed,
)

issue_delay_req-IsTimed : (p : Port) (s : System) → IsTimed s → IsTimed (issue_delay_req p s)
unfolding issue_delay_req net_send_event
issue_delay_req-IsTimed p s timed =
    let packed = delay_req_packed p s in
    let sent =
      net_send p packed.clock.msg_obuf Length.delay_req true (get_time p s).0 multicast_addr
        event_channel packed in
    or_fault-IsTimed p sent (delay_req_sent sent.at)
      (net_send-IsTimed p packed.clock.msg_obuf Length.delay_req true (get_time p s).0
        multicast_addr event_channel packed (packed-IsTimed p s timed).0)
      (λ r. (sent-IsTimed sent.at sent.system r).0)

issue_pdelay_req-IsTimed : (p : Port) (s : System) → IsTimed s → IsTimed (issue_pdelay_req p s)
unfolding issue_pdelay_req net_send_peer_event
issue_pdelay_req-IsTimed p s timed =
    let packed = pdelay_req_packed p s in
    let sent =
      net_send p packed.clock.msg_obuf Length.pdelay_req true (get_time p s).0 peer_multicast_addr
        event_channel packed in
    or_fault-IsTimed p sent (pdelay_req_sent sent.at)
      (net_send-IsTimed p packed.clock.msg_obuf Length.pdelay_req true (get_time p s).0
        peer_multicast_addr event_channel packed (packed-IsTimed p s timed).1)
      (λ r. (sent-IsTimed sent.at sent.system r).1)

request_again-IsTimed :
    (p : Port) (t : Timer) (interval : ℤ) (issue : System → System) (s : System)
    → has_timer s.clock.port_ds.delay_mechanism s.clock.port_ds.port_state t ≡ true
    → ((r : System) → IsTimed r → IsTimed (issue r))
    → IsTimed s
    → IsTimed (request_again p t interval issue s)
unfolding request_again running
request_again-IsTimed p t interval issue s has issues timed =
    elim (Bool-cases (p.expired s.calls t)) [
      | inl due ↦ rw due (issues _ (asked-IsTimed p t (pow2ms (interval +ℤ pos 1)) _ s has timed))
      | inr early ↦
          rw early (same-IsTimed s (log (lwip_ptp_check_timer t) s) (λ u. refl) refl timed)
    ]

slave_of : (st : PortState) → same_state st slave ≡ true → st ≡ slave
slave_of slave h = refl
slave_of st h = absurd (ground (arith, h))

issue_by-IsTimed :
    (p : Port) (m : DelayMechanism) (s : System)
    → s.clock.port_ds.delay_mechanism ≡ m
    → (m ≡ p2p → has_timer p2p s.clock.port_ds.port_state pdelayreq_interval_timer ≡ true)
    → IsTimed s
    → IsTimed (issue_by p m s)
unfolding issue_by
issue_by-IsTimed p e2e s e peer timed =
    elim (Bool-cases (same_state s.clock.port_ds.port_state slave)) [
      | inl at ↦ rw at (
          request_again-IsTimed p _ _ (issue_delay_req p) s (rw (slave_of _ at) (rw e refl))
            (issue_delay_req-IsTimed p) timed)
      | inr away ↦ rw away timed
    ]
issue_by-IsTimed p p2p s e peer timed =
    request_again-IsTimed p pdelayreq_interval_timer _ (issue_pdelay_req p) s (rw e (peer refl))
      (issue_pdelay_req-IsTimed p) timed
issue_by-IsTimed p delay_disabled s e peer timed = timed

-- If exactly the timers of the port's state run, then so they do after `issueDelayReqTimerExpired`,
-- whether or not the timer has expired and the request can be sent. With the peer delay mechanism it is to be
-- called in a state that has the timer of the peer delay requests.
pub issue_delay_req_timer_expired-IsTimed :
    (p : Port) (s : System)
    → IsTimed s
    → (s.clock.port_ds.delay_mechanism ≡ p2p
        → has_timer p2p s.clock.port_ds.port_state pdelayreq_interval_timer ≡ true)
    → IsTimed (issue_delay_req_timer_expired p s)
unfolding issue_delay_req_timer_expired
issue_delay_req_timer_expired-IsTimed p s timed peer =
    issue_by-IsTimed p s.clock.port_ds.delay_mechanism s refl peer timed

-- ===== src/Protocol/Receive/Error.antt =====
-- The messages that `handle` of src/protocol.c ignores, by what stands in their packets.
use ptpd_lwip.Msg.Unpack.{msg_unpack_header}
use ptpd_lwip.Prelude.Int.{pos, ltb_ℤ}
use ptpd_lwip.Prelude.{
  ℕ, true, ◌≡◌, get_or, some, ◌<◌, ◌≤◌, false, ◌==◌, length, refl, arith, bit_and, ◌≢◌, ◌∙◌, ◌⊎◌,
  ◌∷◌, ap, inl, inr,
}
use ptpd_lwip.Types.Time.{TimeInternal, zero_time}
use ptpd_lwip.Types.System.{Port, System, on_clock, pbuf_free, sys_arch_mbox_tryfetch, log}
use ptpd_lwip.Types.Clock.{PtpClock}
use ptpd_lwip.Types.Network.{Pbuf, event_channel}
use ptpd_lwip.Types.Opt.Length
use ptpd_lwip.Net.Receive.Copy.{concat, AreFilled}
use ptpd_lwip.Net.Receive.Outcome.{Handles, net_recv-Handles}
use ptpd_lwip.Net.Receive.{Received, net_recv, net_recv_event}
use ptpd_lwip.Protocol.Receive.{handle, dispatch, examine, receive, is_ours, unpack_header}

-- A packet on the event socket, as `netRecvEvent` returns it.
abbrev received : Port → System → Received
received p s = net_recv p s.clock.msg_ibuf zero_time event_channel s

-- The clock with a message in its input buffer, and the header read.
abbrev with_message : Received → PtpClock → PtpClock
with_message r c = record c {
  msg_ibuf = r.buf;
  msg_ibuf_length = pos r.length;
  message_activity = true;
  msg_tmp_header = msg_unpack_header r.buf;
}

handle_examines :
    (p : Port) (s : System) (n : ℕ)
    → (received p s).length ≡ n
    → 0 < n
    → handle p s ≡ examine p (received p s).at (receive (received p s))
handle_examines p s n e filled = unfold handle net_recv_event in (rw nonzero refl)
  where
    nonzero : ((received p s).length == 0) ≡ false
    nonzero = ground (arith, e, filled)

dispatch-ignores :
    (p : Port) (t : TimeInternal) (s : System)
    → is_ours (unpack_header s.clock) ≡ false
    → dispatch p t s ≡ on_clock unpack_header s
unfolding dispatch
dispatch-ignores p t s other = rw (other, dispatch) refl

handle-received :
    (p : Port) (s : System) (n : ℕ)
    → (received p s).length ≡ n
    → 34 ≤ n
    → is_ours (with_message (received p s) (received p s).system.clock) ≡ false
    → handle p s ≡ on_clock (with_message (received p s)) (received p s).system
handle-received p s n e whole other =
    handle_examines p s n e (omega arith)
    ∙ (unfold examine in (rw long (dispatch-ignores p (received p s).at _ other)))
  where
    long : ltb_ℤ (pos (received p s).length) (pos Length.header) ≡ false
    long = rw e (ground arith)

-- The octet of a packet at an offset.
abbrev pub octet : Pbuf → ℕ → ℕ
octet packet k = get_or (concat packet.payloads) k 0

-- The clock with the input buffer, its length, the header in it and the flag of activity of another.
abbrev pub restored : PtpClock → PtpClock → PtpClock
restored before after = record after {
  msg_ibuf = before.msg_ibuf;
  msg_ibuf_length = before.msg_ibuf_length;
  message_activity = before.message_activity;
  msg_tmp_header = before.msg_tmp_header;
}

-- A packet on the event socket, of 34 octets up to the size of the buffer, with no packet buffer of
-- its chain empty, is taken and freed, and nothing else is called, if the low half of its octet 1 is
-- not the version of the port or its octet 4 is not the domain of the clock. The clock is as before
-- but for the input buffer, its length, the header in it and the flag of activity.
pub handle_ignores :
    (p : Port) (s : System) (packet : Pbuf)
    → p.arrived s.calls event_channel ≡ some packet
    → packet.tot_len ≡ length (concat packet.payloads)
    → AreFilled packet.payloads
    → 34 ≤ packet.tot_len
    → packet.tot_len ≤ Length.packet
    → (bit_and (octet packet 1) 15 ≢ s.clock.port_ds.version_number)
      ⊎ (octet packet 4 ≢ s.clock.default_ds.domain_number)
    → ((handle p s).calls ≡ pbuf_free ∷ sys_arch_mbox_tryfetch event_channel ∷ s.calls)
      × (restored s.clock (handle p s).clock ≡ s.clock)
handle_ignores p s packet e whole filled long fits other =
    let done = handle-received p s packet.tot_len full long not_ours in
    (
      ap (λ r. r.calls) done ∙ ap (λ r. r.calls) h.freed,
      ap (λ r. restored s.clock r.clock) done ∙ ap (λ r. restored s.clock r.clock) h.freed,
    )
  where
    h :
        Handles s.clock.msg_ibuf packet
          (log (sys_arch_mbox_tryfetch event_channel) s)
          (received p s)
    h = net_recv-Handles p s.clock.msg_ibuf zero_time event_channel s packet e whole filled

    full : (received p s).length ≡ packet.tot_len
    full = h.length ∙ ground (arith, fits)

    at : (k : ℕ) → k < 34 → (received p s).buf k ≡ octet packet k
    at k below = h.holds k ∙ rw full (ground (arith, below, long))

    not_ours : is_ours (with_message (received p s) (received p s).system.clock) ≡ false
    not_ours =
        unfold msg_unpack_header in
        rw (ap (λ r. r.clock) h.freed, at 1 (omega arith), at 4 (omega arith))
          (elim other [
            | inl version ↦ ground (arith, version)
            | inr domain ↦ ground (arith, domain)
          ])

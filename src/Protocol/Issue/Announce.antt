-- ===== src/Protocol/Issue/Announce.antt =====
-- What `issueAnnounce` of src/protocol.c sends.
use ptpd_lwip.Protocol.Timers.Agree.Kept.{to_state-kept}
use ptpd_lwip.Msg.Pack.{msg_pack_announce}
use ptpd_lwip.Prelude.Int.{◌+ℤ◌, pos}
use ptpd_lwip.Msg.Unpack.{msg_unpack_header}
use ptpd_lwip.Types.Time.{zero_time}
use ptpd_lwip.Msg.Header.{HasHeader, Describes}
use ptpd_lwip.Prelude.Word.{IsS16, s16}
use ptpd_lwip.Types.Clock.{Buffer}
use ptpd_lwip.Protocol.Issue.{issue_announce, on_obuf}
use ptpd_lwip.Net.{net_send_general, net_send}
use ptpd_lwip.Types.System.{
  SendAnswer, Port, System, net_post, general_channel, log, multicast_addr,
}
use ptpd_lwip.Msg.Stamp.{pack-Describes, pack, announce}
use ptpd_lwip.Types.Opt.Length
use ptpd_lwip.Types.Opt.MessageType
use ptpd_lwip.Types.Opt.{faulty}
use ptpd_lwip.Prelude.{arith, ◌≡◌, ◌<◌, Bool, ◌&&◌, ℕ, true, false, ◌∷◌, refl}

-- lwIP accepts the packet.
abbrev pub is_accepted : SendAnswer → Bool
is_accepted a = a.allocated && a.taken && a.posted && a.called_back

net_send_general-accepted :
    (p : Port) (buf : Buffer) (length : ℕ) (s : System)
    → is_accepted (p.sending s.calls) ≡ true
    → net_send_general p buf length s ≡ record {
      result = length;
      at = zero_time;
      system = log (net_post general_channel multicast_addr buf length) s;
    }
unfolding net_send_general net_send
net_send_general-accepted p buf length s ok = rw taken (rw called refl)
  where
    taken :
        ((p.sending s.calls).allocated && (p.sending s.calls).taken && (p.sending s.calls).posted)
        ≡ true
    taken = ground (arith, ok)

    called : (p.sending s.calls).called_back ≡ true
    called = ground (arith, ok)

net_send_general-refused :
    (p : Port) (buf : Buffer) (length : ℕ) (s : System)
    → is_accepted (p.sending s.calls) ≡ false
    → (net_send_general p buf length s).result ≡ 0
unfolding net_send_general net_send
net_send_general-refused p buf length s bad = ground (arith, bad)

-- For a clock of a version below 16 and a port number of s16_t whose output buffer holds its header:
-- if lwIP accepts the packet, `issueAnnounce` posts one Announce message to the general socket, in
-- whose header a receiver reads the clock's version, domain and port and the next sequence number,
-- which is then counted. Otherwise the port becomes FAULTY.
pub issue_announce-Describes :
    (p : Port) (s : System)
    → s.clock.port_ds.version_number < 16
    → IsS16 s.clock.port_ds.port_identity.port_number
    → HasHeader s.clock s.clock.msg_obuf
    → (is_accepted (p.sending s.calls) ≡ true
        → ((issue_announce p s).calls
            ≡ net_post general_channel multicast_addr
                (issue_announce p s).clock.msg_obuf
                Length.announce
              ∷ s.calls)
          × Describes s.clock MessageType.announce Length.announce
              (s16 s.clock.sent_announce_sequence_id)
              (msg_unpack_header (issue_announce p s).clock.msg_obuf)
          × HasHeader s.clock (issue_announce p s).clock.msg_obuf
          × ((issue_announce p s).clock.sent_announce_sequence_id
              ≡ s16 (s.clock.sent_announce_sequence_id +ℤ pos 1)))
      × (is_accepted (p.sending s.calls) ≡ false
          → (issue_announce p s).clock.port_ds.port_state ≡ faulty)
unfolding issue_announce pack
issue_announce-Describes p s version port header =
    let packed = on_obuf (msg_pack_announce s.clock) s in
    let (describes, kept) = pack-Describes s.clock announce s.clock.msg_obuf version port header in
    (
      λ ok.
          rw (net_send_general-accepted p packed.clock.msg_obuf Length.announce packed ok)
            (refl, describes, kept, refl),
      λ bad.
          rw (net_send_general-refused p packed.clock.msg_obuf Length.announce packed bad)
            (to_state-kept p faulty _).0,
    )

-- ===== src/Protocol/Examples.antt =====
-- Tests of src/protocol.c, and instances of its theorems.
use ptpd_lwip.Protocol.Receive.Error.{handle_ignores, restored}
use ptpd_lwip.Protocol.Receive.Kept.{handle_kept}
use ptpd_lwip.Protocol.Run.Timed.{do_state-IsTimed}
use ptpd_lwip.Protocol.Run.Sized.{do_state-IsSized}
use ptpd_lwip.Protocol.Moves.{IsPrompt}
use ptpd_lwip.Bmc.Spares.{IsSized}
use ptpd_lwip.Protocol.Decide.Resume.{state, follow_resumes}
use ptpd_lwip.Protocol.Run.Low.{IsLow, do_state-IsLow}
use ptpd_lwip.Protocol.Receive.{handle}
use ptpd_lwip.Protocol.Run.{do_state}
use ptpd_lwip.Protocol.Handle.Stranger.{handle_stranger}
use ptpd_lwip.Types.Time.{zero_time}
use ptpd_lwip.Protocol.Handle.{handle_sync, handle_follow_up}
use ptpd_lwip.Msg.Unpack.{msg_unpack_header}
use ptpd_lwip.Prelude.Int.{pos, ◌+ℤ◌}
use ptpd_lwip.Prelude.Word.{s16}
use ptpd_lwip.Msg.Header.{HasHeader, pack_header-HasHeader, Describes}
use ptpd_lwip.Protocol.Issue.Announce.{is_accepted, issue_announce-Describes}
use ptpd_lwip.Msg.Pack.{msg_pack_header}
use ptpd_lwip.Protocol.Issue.{issue_announce}
use ptpd_lwip.SysTime.{adj_freq, get_rand}
use ptpd_lwip.Types.Opt.{
  Timer, passive, delayreq_interval_timer, slave, pdelayreq_interval_timer, uncalibrated,
  state_number, sync_interval_timer, announce_receipt_timer, announce_interval_timer,
  qualification_timeout, PortState,
}
use ptpd_lwip.Servo.{init_clock}
use ptpd_lwip.Types.Sample.{
  sample_surroundings, sample_clock, sample_system, sample_header, sample_path, sample_options,
}
use ptpd_lwip.Protocol.Timers.{running, has_timer}
use ptpd_lwip.Protocol.Timers.Agree.{IsTimed, to_state-IsTimed}
use ptpd_lwip.Protocol.{to_state}
use ptpd_lwip.Protocol.Decide.Subordinate.{IsSubordinate}
use ptpd_lwip.Protocol.Decide.{follow, decide}
use ptpd_lwip.Types.System.{
  System, Call, lwip_ptp_start_timer, net_post, general_channel, multicast_addr, Port,
}
use ptpd_lwip.Types.Opt.Default.{e2e}
use ptpd_lwip.Types.Opt.Event
use ptpd_lwip.Types.Opt.Length
use ptpd_lwip.Types.Opt.MessageType
use ptpd_lwip.Types.Opt.{faulty}
use ptpd_lwip.Prelude.{none, some, ℕ, replicate, length, ◌⊎◌, inr, ◌≢◌, inl}
use ptpd_lwip.Types.System.{event_channel, pbuf_free, sys_arch_mbox_tryfetch}
use ptpd_lwip.Types.Network.{Pbuf}
use ptpd_lwip.Prelude.{arith, ◌≡◌, List, refl, bit_or, ap, ◌∷◌, true, [], false}

-- A port that follows a master end to end, with its two timers running.
abbrev following_calls : List Call
following_calls =
    lwip_ptp_start_timer delayreq_interval_timer 9000
    ∷ lwip_ptp_start_timer announce_receipt_timer 12000
    ∷ []

abbrev following_system : System
following_system = record {
  clock = record sample_clock {
    events = bit_or Event.state_decision_event Event.master_clock_changed;
    recommended_state = slave;
    default_ds = record (sample_clock.default_ds) { slave_only = true };
  };
  net_path = sample_path;
  calls = following_calls;
}

following_timers : (t : Timer) → running t following_calls ≡ has_timer e2e slave t
unfolding running
following_timers pdelayreq_interval_timer = refl
following_timers delayreq_interval_timer = refl
following_timers sync_interval_timer = refl
following_timers announce_receipt_timer = refl
following_timers announce_interval_timer = refl
following_timers qualification_timeout = refl

following-IsTimed : IsTimed following_system
following-IsTimed = record { timers = following_timers }

to_state-IsTimed_example :
    ((to_state sample_surroundings passive following_system).clock.port_ds.port_state ≡ passive)
    × IsTimed (to_state sample_surroundings passive following_system)
to_state-IsTimed_example =
    to_state-IsTimed sample_surroundings passive following_system following-IsTimed
      (λ e. absurd (ground (arith, ap state_number e)))

following-IsSubordinate : IsSubordinate following_system
following-IsSubordinate = record { only = refl; state_low = refl; recommended_low = refl }

-- The slave loses its master and starts over.
follow_run : (follow sample_surroundings following_system).clock.port_ds.port_state ≡ uncalibrated
unfolding follow to_state init_clock adj_freq get_rand
follow_run = refl

-- A clock whose output buffer holds its header.
abbrev ready_system : System
ready_system = record sample_system {
  clock = record sample_clock { msg_obuf = msg_pack_header sample_clock (λ _. 0) };
}

ready-HasHeader : HasHeader ready_system.clock ready_system.clock.msg_obuf
unfolding msg_pack_header
ready-HasHeader = pack_header-HasHeader ready_system.clock (λ _. 0)

issue_announce-Describes_example :
    (is_accepted (sample_surroundings.sending []) ≡ true
      → ((issue_announce sample_surroundings ready_system).calls
          ≡ net_post general_channel multicast_addr
              (issue_announce sample_surroundings ready_system).clock.msg_obuf
              Length.announce
            ∷ [])
        × Describes ready_system.clock MessageType.announce Length.announce
            (s16 (pos 7))
            (msg_unpack_header (issue_announce sample_surroundings ready_system).clock.msg_obuf)
        × HasHeader ready_system.clock
            (issue_announce sample_surroundings ready_system).clock.msg_obuf
        × ((issue_announce sample_surroundings ready_system).clock.sent_announce_sequence_id
            ≡ s16 (pos 7 +ℤ pos 1)))
    × (is_accepted (sample_surroundings.sending []) ≡ false
        → (issue_announce sample_surroundings ready_system).clock.port_ds.port_state ≡ faulty)
issue_announce-Describes_example =
    issue_announce-Describes sample_surroundings ready_system (omega arith)
      (omega arith, omega arith) ready-HasHeader

-- The following system with a Sync message of another sender in its buffers.
abbrev strange_system : System
strange_system = record following_system {
  clock = record (following_system.clock) {
    msg_tmp_header = sample_header;
    msg_ibuf_length = pos 44;
  };
}

-- The clock identities of the parent and of the sender differ.
strange_sender :
    strange_system.clock.parent_ds.parent_port_identity
    ≢ strange_system.clock.msg_tmp_header.source_port_identity
strange_sender e = cc

handle_stranger_example :
    (handle_sync sample_surroundings zero_time false strange_system ≡ strange_system)
    × (handle_follow_up sample_surroundings false strange_system ≡ strange_system)
handle_stranger_example =
    handle_stranger sample_surroundings zero_time false strange_system (inr refl) strange_sender 44
      refl (omega arith)

-- Every timer that runs has expired, and no packet arrives.
abbrev prompt_surroundings : Port
prompt_surroundings = record sample_surroundings { expired = λ calls t. running t calls }

surroundings-IsPrompt : IsPrompt prompt_surroundings
surroundings-IsPrompt = record { runs = λ calls t expired. expired }

do_state-IsTimed_example : IsTimed (do_state prompt_surroundings following_system)
do_state-IsTimed_example =
    do_state-IsTimed prompt_surroundings surroundings-IsPrompt following_system following-IsTimed

-- Its options ask for a slave-only clock, too.
abbrev slave_only_system : System
slave_only_system = record following_system {
  clock = record (following_system.clock) { rt_opts = record sample_options { slave_only = true } };
}

slave_only-IsLow : IsLow slave_only_system
slave_only-IsLow = record {
  subordinate = record { only = refl; state_low = refl; recommended_low = refl };
  options = refl;
}

do_state-IsLow_example : IsLow (do_state prompt_surroundings slave_only_system)
do_state-IsLow_example =
    do_state-IsLow prompt_surroundings surroundings-IsPrompt slave_only_system slave_only-IsLow

following-IsSized : IsSized following_system.clock
following-IsSized = record {
  bounds = record {
    size = refl;
    count_in = omega arith;
    next_in = omega arith;
    best_in = omega arith;
  };
  capacity = refl;
}

do_state-IsSized_example : IsSized (do_state prompt_surroundings following_system).clock
do_state-IsSized_example =
    do_state-IsSized prompt_surroundings surroundings-IsPrompt following_system following-IsSized

handle_kept_example :
    IsTimed (handle prompt_surroundings following_system)
    × IsSized (handle prompt_surroundings following_system).clock
    × (((handle prompt_surroundings following_system).clock.port_ds.port_state ≡ slave)
        ⊎ ((handle prompt_surroundings following_system).clock.port_ds.port_state ≡ faulty))
    × ((handle prompt_surroundings following_system).clock.rt_opts ≡ following_system.clock.rt_opts)
handle_kept_example =
    handle_kept prompt_surroundings following_system surroundings-IsPrompt following-IsTimed
      following-IsSized

-- A port with a fault, to which the given state is recommended.
abbrev faulty_system : PortState → System
faulty_system st = record following_system {
  clock = record (following_system.clock) {
    recommended_state = st;
    port_ds = record (following_system.clock.port_ds) { port_state = faulty };
  };
}

follow_resumes_example :
    state (follow sample_surroundings (decide (faulty_system slave))) ≡ uncalibrated
follow_resumes_example = follow_resumes sample_surroundings (faulty_system slave) refl

-- A packet arrives on the event socket: a Sync message of version 1.
abbrev old_sync : List ℕ
old_sync = 0 ∷ 1 ∷ replicate 42 0

abbrev pbuf : List ℕ → Pbuf
pbuf octets = record { tot_len = length octets; tv_sec = 1000; tv_nsec = 7; payloads = octets ∷ [] }

abbrev arriving : List ℕ → Port
arriving octets = record sample_surroundings {
  arrived =
      λ calls handler. elim handler [ event_channel ↦ some (pbuf octets) | general_channel ↦ none ];
}

handle_ignores_example :
    ((handle (arriving old_sync) following_system).calls
      ≡ pbuf_free ∷ sys_arch_mbox_tryfetch event_channel ∷ following_system.calls)
    × (restored following_system.clock (handle (arriving old_sync) following_system).clock
        ≡ following_system.clock)
handle_ignores_example =
    handle_ignores (arriving old_sync) following_system (pbuf old_sync) refl refl (omega arith)
      (omega arith) (omega arith) (inl (λ e. omega arith))

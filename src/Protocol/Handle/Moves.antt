-- ===== src/Protocol/Handle/Moves.antt =====
-- The handlers of Announce, Sync and Follow_Up messages in src/protocol.c, as moves of the port.
use ptpd_lwip.Types.DataSet.{ForeignMasterDs}
use ptpd_lwip.Protocol.Issue.Moves.{issue_delay_req_timer_expired-Moves}
use ptpd_lwip.Servo.Offset.Frame.{update_offset-Spares}
use ptpd_lwip.Types.Time.{TimeInternal}
use ptpd_lwip.Bmc.Foreign.Table.{add_foreign_ds-InBounds}
use ptpd_lwip.Servo.Controller.Frame.{update_clock-IsApart}
use ptpd_lwip.Types.Message.{MsgHeader, MsgAnnounce}
use ptpd_lwip.Servo.Controller.{update_clock}
use ptpd_lwip.Protocol.Timers.{has_timer, running}
use ptpd_lwip.Types.Clock.{PtpClock}
use ptpd_lwip.Types.Opt.{Timer, announce_receipt_timer, PortState, get_flag}
use ptpd_lwip.Bmc.Foreign.{add_foreign, add_foreign_ds}
use ptpd_lwip.Bmc.Update.{s1}
use ptpd_lwip.Types.System.{Port, System, Call, Extends, one_more, same_calls, is_timer_call}
use ptpd_lwip.Prelude.{List, ◌≡◌, true, refl, ◌∙◌, Bool, false, ◌∷◌, arith}
use ptpd_lwip.Bmc.Spares.{Spares, spared}
use ptpd_lwip.Protocol.Moves.{Moves, stores, restarts, faults, follows, idle, either, IsPrompt}
use ptpd_lwip.Protocol.Handle.{
  handle_announce, handle_sync, handle_follow_up, announce_in, announce_follower, announce_other,
  unpack_announce, decide_later, synchronize, sync_of_parent, sync_follower, sync_in,
  follow_up_of_parent, follow_up_follower, follow_up_in, is_from_parent, is_short,
}
use ptpd_lwip.Types.Opt.Length
use ptpd_lwip.Types.Opt.Flag
use ptpd_lwip.Types.System.{
  Extends, same_calls, one_more, lwip_ptp_init_timers, lwip_ptp_start_timer, lwip_ptp_stop_timer,
}
use ptpd_lwip.Types.Opt.{
  initializing, faulty, disabled, listening, pre_master, master, passive, uncalibrated, slave,
}

running_quiet :
    (t : Timer) (call : Call) (calls : List Call)
    → is_timer_call call ≡ false
    → running t (call ∷ calls) ≡ running t calls
unfolding running
running_quiet t lwip_ptp_init_timers calls quiet = absurd (ground arith)
running_quiet t (lwip_ptp_start_timer u ms) calls quiet = absurd (ground arith)
running_quiet t (lwip_ptp_stop_timer u) calls quiet = absurd (ground arith)
running_quiet t call calls quiet = refl

pub running-Extends : {a b : List Call} (t : Timer) → Extends a b → running t b ≡ running t a
running-Extends t same_calls = refl
running-Extends t (one_more {calls} call quiet more) =
    running_quiet t call calls quiet ∙ running-Extends t more

pub update_clock-Moves : (p : Port) (s : System) → Moves p s (update_clock p s)
update_clock-Moves p s =
    let apart = update_clock-IsApart p s in
    stores apart.spares (λ t. running-Extends t apart.extends)

add_foreign_ds-capacity :
    (h : MsgHeader) (a : MsgAnnounce) (f : ForeignMasterDs)
    → (add_foreign_ds h a f).capacity ≡ f.capacity
unfolding add_foreign_ds
add_foreign_ds-capacity h a f = refl

module _ (p : Port) where
  adds-Moves :
      (s : System) (c : PtpClock)
      → Spares s.clock c
      → (h : MsgHeader) (a : MsgAnnounce) → Moves p s (record s { clock = add_foreign c h a })
  unfolding add_foreign
  adds-Moves s c spares h a =
      stores
        (record {
          state = spares.state;
          delay = spares.delay;
          default = spares.default;
          recommended = spares.recommended;
          options = spares.options;
          table = λ v. record {
            bounds = add_foreign_ds-InBounds h a c.foreign_master_ds (spares.table v).bounds;
            capacity = add_foreign_ds-capacity h a c.foreign_master_ds ∙ (spares.table v).capacity;
          };
        })
        (λ t. refl)

  announce_other-Moves : (s : System) → Moves p s (announce_other s)
  unfolding announce_other unpack_announce decide_later
  announce_other-Moves s = adds-Moves s _ (spared refl refl refl refl refl refl) _ _

  announce_follower-Moves :
      (s : System)
      → has_timer s.clock.port_ds.delay_mechanism s.clock.port_ds.port_state announce_receipt_timer
        ≡ true
      → Moves p s (announce_follower s)
  unfolding announce_follower unpack_announce decide_later s1
  announce_follower-Moves s has =
      either (is_from_parent s.clock)
        (λ parent.
          follows (stores (spared refl refl refl refl refl refl) (λ t. refl))
            (restarts announce_receipt_timer _ has))
        (λ other. adds-Moves s _ (spared refl refl refl refl refl refl) _ _)

  announce_in-Moves :
      (st : PortState) (s : System) → s.clock.port_ds.port_state ≡ st → Moves p s (announce_in st s)
  unfolding announce_in
  announce_in-Moves initializing s e = idle s
  announce_in-Moves faulty s e = idle s
  announce_in-Moves disabled s e = idle s
  announce_in-Moves uncalibrated s e = announce_follower-Moves s (rw e refl)
  announce_in-Moves slave s e = announce_follower-Moves s (rw e refl)
  announce_in-Moves passive s e =
      follows (restarts announce_receipt_timer _ (rw e refl)) (announce_other-Moves _)
  announce_in-Moves listening s e = announce_other-Moves s
  announce_in-Moves pre_master s e = announce_other-Moves s
  announce_in-Moves master s e = announce_other-Moves s

  pub handle_announce-Moves :
      (from_self : Bool) (s : System) → Moves p s (handle_announce p from_self s)
  handle_announce-Moves from_self s =
      unfold handle_announce in
      either (is_short Length.announce s) (λ short. faults)
        (λ whole. either from_self (λ own. idle s) (λ other. announce_in-Moves _ s refl))

module _ (p : Port) (prompt : IsPrompt p) where
  synchronize-Moves :
      (origin correction : TimeInternal) (s : System)
      → Moves p s (synchronize p origin correction s)
  unfolding synchronize
  synchronize-Moves origin correction s =
      follows
        (stores (update_offset-Spares s.clock s.clock.timestamp_sync_receive origin correction)
          (λ t. refl))
        (follows (update_clock-Moves p _) (issue_delay_req_timer_expired-Moves p prompt _))

  sync_of_parent-Moves : (t : TimeInternal) (s : System) → Moves p s (sync_of_parent p t s)
  unfolding sync_of_parent
  sync_of_parent-Moves t s =
      either (get_flag s.clock.msg_tmp_header.flag_field0 Flag.two_step)
        (λ two. stores (spared refl refl refl refl refl refl) (λ u. refl))
        (λ one.
          follows (stores (spared refl refl refl refl refl refl) (λ u. refl))
            (synchronize-Moves _ _ _))

  sync_follower-Moves :
      (t : TimeInternal) (from_self : Bool) (s : System) → Moves p s (sync_follower p t from_self s)
  unfolding sync_follower
  sync_follower-Moves t from_self s =
      either from_self (λ own. idle s)
        (λ other.
          either (is_from_parent s.clock) (λ parent. sync_of_parent-Moves t s) (λ stranger. idle s))

  sync_in-Moves :
      (st : PortState) (t : TimeInternal) (from_self : Bool) (s : System)
      → Moves p s (sync_in p st t from_self s)
  unfolding sync_in
  sync_in-Moves uncalibrated t from_self s = sync_follower-Moves t from_self s
  sync_in-Moves slave t from_self s = sync_follower-Moves t from_self s
  sync_in-Moves passive t from_self s = issue_delay_req_timer_expired-Moves p prompt s
  sync_in-Moves st t from_self s = idle s

  pub handle_sync-Moves :
      (t : TimeInternal) (from_self : Bool) (s : System) → Moves p s (handle_sync p t from_self s)
  handle_sync-Moves t from_self s =
      unfold handle_sync in
      either (is_short Length.sync s) (λ short. faults) (λ whole. sync_in-Moves _ t from_self s)

  follow_up_of_parent-Moves : (s : System) → Moves p s (follow_up_of_parent p s)
  unfolding follow_up_of_parent
  follow_up_of_parent-Moves s =
      follows (stores (spared refl refl refl refl refl refl) (λ u. refl)) (synchronize-Moves _ _ _)

  follow_up_follower-Moves : (s : System) → Moves p s (follow_up_follower p s)
  unfolding follow_up_follower
  follow_up_follower-Moves s = either _ (λ due. follow_up_of_parent-Moves s) (λ other. idle s)

  follow_up_in-Moves : (st : PortState) (s : System) → Moves p s (follow_up_in p st s)
  unfolding follow_up_in
  follow_up_in-Moves uncalibrated s = follow_up_follower-Moves s
  follow_up_in-Moves slave s = follow_up_follower-Moves s
  follow_up_in-Moves passive s = issue_delay_req_timer_expired-Moves p prompt s
  follow_up_in-Moves st s = idle s

  pub handle_follow_up-Moves :
      (from_self : Bool) (s : System) → Moves p s (handle_follow_up p from_self s)
  handle_follow_up-Moves from_self s =
      unfold handle_follow_up in
      either (is_short Length.follow_up s) (λ short. faults)
        (λ whole. either from_self (λ own. idle s) (λ other. follow_up_in-Moves _ s))

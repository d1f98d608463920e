-- ===== src/Protocol/Handle/Stranger.antt =====
-- Messages that do not come from the current master, in src/protocol.c.
use ptpd_lwip.Bmc.Foreign.Table.{is_same_port_identity_iff}
use ptpd_lwip.Protocol.Timers.Agree.{follower_cases}
use ptpd_lwip.Prelude.Int.{eqb_ℤ, pos}
use ptpd_lwip.Protocol.{is_follower}
use ptpd_lwip.Types.Time.{TimeInternal}
use ptpd_lwip.Types.System.{Port, System}
use ptpd_lwip.Protocol.Handle.{
  handle_sync, sync_in, follow_up_in, follow_up_follower, sync_follower, handle_follow_up,
  is_from_parent, is_short,
}
use ptpd_lwip.Types.Opt.Length
use ptpd_lwip.Types.Opt.{PortState, uncalibrated, slave}
use ptpd_lwip.Prelude.{
  arith, ◌≡◌, Bool, false, true, ◌&&◌, refl, Bool-cases, inl, inr, ◌⊎◌, ◌≢◌, ℕ, ◌≤◌,
}

sync_stranger :
    (p : Port) (t : TimeInternal) (from_self : Bool) (s : System)
    → is_from_parent s.clock ≡ false
    → sync_follower p t from_self s ≡ s
unfolding sync_follower
sync_stranger p t true s h = refl
sync_stranger p t false s h = rw h refl

sync_in-stranger :
    (p : Port) (st : PortState) (t : TimeInternal) (from_self : Bool) (s : System)
    → is_follower st ≡ true
    → is_from_parent s.clock ≡ false
    → sync_in p st t from_self s ≡ s
unfolding sync_in
sync_in-stranger p st t from_self s follows h = elim (follower_cases st follows) [
  | inl e ↦ rw e (sync_stranger p t from_self s h)
  | inr e ↦ rw e (sync_stranger p t from_self s h)
]

follow_up_stranger :
    (p : Port) (s : System) → is_from_parent s.clock ≡ false → follow_up_follower p s ≡ s
unfolding follow_up_follower
follow_up_stranger p s h = rw (not_awaited s h) refl
  where
    not_awaited :
        (s : System)
        → is_from_parent s.clock ≡ false
        → (s.clock.waiting_for_follow_up
            && is_from_parent s.clock
            && eqb_ℤ s.clock.recv_sync_sequence_id s.clock.msg_tmp_header.sequence_id)
          ≡ false
    not_awaited s e = ground (arith, e)

follow_up_in-stranger :
    (p : Port) (st : PortState) (s : System)
    → is_follower st ≡ true
    → is_from_parent s.clock ≡ false
    → follow_up_in p st s ≡ s
unfolding follow_up_in
follow_up_in-stranger p st s follows h = elim (follower_cases st follows) [
  | inl e ↦ rw e (follow_up_stranger p s h)
  | inr e ↦ rw e (follow_up_stranger p s h)
]

-- A port in the state UNCALIBRATED or SLAVE ignores Sync and Follow_Up messages, of 44 octets or
-- more, of any sender whose port identity is not that of its parent: they change nothing in the clock, and nothing is sent, started or
-- adjusted.
pub handle_stranger :
    (p : Port) (t : TimeInternal) (from_self : Bool) (s : System)
    → (s.clock.port_ds.port_state ≡ uncalibrated) ⊎ (s.clock.port_ds.port_state ≡ slave)
    → s.clock.parent_ds.parent_port_identity ≢ s.clock.msg_tmp_header.source_port_identity
    → (n : ℕ) → s.clock.msg_ibuf_length ≡ pos n
    → 44 ≤ n
    → (handle_sync p t from_self s ≡ s) × (handle_follow_up p from_self s ≡ s)
unfolding handle_sync handle_follow_up
handle_stranger p t from_self s at other n length whole = (
  rw long (sync_in-stranger p s.clock.port_ds.port_state t from_self s follows h),
  rw long (elim (Bool-cases from_self) [
    | inl own ↦ rw own refl
    | inr foreign ↦ rw foreign (follow_up_in-stranger p s.clock.port_ds.port_state s follows h)
  ]),
)
  where
    h : is_from_parent s.clock ≡ false
    h = elim (Bool-cases (is_from_parent s.clock)) [
      | inl same ↦ absurd (
          other (
            (is_same_port_identity_iff s.clock.parent_ds.parent_port_identity
                s.clock.msg_tmp_header.source_port_identity).0
              same))
      | inr apart ↦ apart
    ]

    long : is_short Length.sync s ≡ false
    long = rw length (ground arith)

    follows : is_follower s.clock.port_ds.port_state ≡ true
    follows = elim at [ inl e ↦ rw e refl | inr e ↦ rw e refl ]

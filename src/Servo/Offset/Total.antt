-- ===== src/Servo/Offset/Total.antt =====
-- The offset and the delays of src/servo.c as numbers of nanoseconds.
use ptpd_lwip.Servo.{filter}
use ptpd_lwip.Prelude.Word.{IsS32}
use ptpd_lwip.Types.Opt.{slave, set_flag, PortState}
use ptpd_lwip.Arith.{sub_time, add_time, div2_time}
use ptpd_lwip.Arith.Normal.{
  IsNormal, DifferenceFits, sub_time-total, SumFits, add_time-total, div2_time-total,
}
use ptpd_lwip.Servo.Offset.{
  raw_offset, update_offset, flag_in, check_offset, update_delay, filter_offset, store_offset,
}
use ptpd_lwip.Types.Time.{TimeInternal, total, zero_time, time}
use ptpd_lwip.Types.Clock.{PtpClock}
use ptpd_lwip.Types.Opt.Default.{e2e, p2p, delay_disabled, DelayMechanism}
use ptpd_lwip.Types.Opt.Event
use ptpd_lwip.Prelude.{
  arith, ◌≡◌, ◌≢◌, ap, ◌∙◌, ℕ, Bool-cases, refl, if◌then◌else◌, inl, inr, false,
}
use ptpd_lwip.Prelude.Int.{int_laws, ◌+ℤ◌, ◌-ℤ◌, pos, tdiv, eqb_ℤ}

-- The path delay that the offset is without.
abbrev pub path_delay : DelayMechanism → PtpClock → TimeInternal
path_delay e2e c = c.current_ds.mean_path_delay
path_delay p2p c = c.port_ds.peer_mean_path_delay
path_delay delay_disabled c = zero_time

-- The three subtractions of `updateOffset` stay in s32_t.
pub record OffsetFits (ingress origin correction : TimeInternal) (c : PtpClock) : Type 0 where
  pub elapsed : DifferenceFits ingress origin
  pub corrected : DifferenceFits (sub_time ingress origin) correction
  pub delayed :
      DifferenceFits
        (sub_time (sub_time ingress origin) correction)
        (path_delay c.port_ds.delay_mechanism c)

raw_offset-total :
    (m : DelayMechanism) (c : PtpClock) (tms : TimeInternal)
    → IsNormal tms
    → DifferenceFits tms (path_delay m c)
    → IsNormal (raw_offset m c tms)
      × (total (raw_offset m c tms) ≡ total tms -ℤ total (path_delay m c))
unfolding raw_offset total
raw_offset-total e2e c tms n f = sub_time-total tms c.current_ds.mean_path_delay f
raw_offset-total p2p c tms n f = sub_time-total tms c.port_ds.peer_mean_path_delay f
raw_offset-total delay_disabled c tms n f = (n, omega int_laws)

-- The offset before it is filtered.
unfiltered : TimeInternal → TimeInternal → TimeInternal → PtpClock → TimeInternal
unfiltered ingress origin correction c =
    raw_offset c.port_ds.delay_mechanism c (sub_time (sub_time ingress origin) correction)

unfiltered-total :
    (ingress origin correction : TimeInternal) (c : PtpClock)
    → OffsetFits ingress origin correction c
    → IsNormal (unfiltered ingress origin correction c)
      × (total (unfiltered ingress origin correction c)
          ≡ total ingress
            -ℤ total origin
            -ℤ total correction
            -ℤ total (path_delay c.port_ds.delay_mechanism c))
unfolding unfiltered
unfiltered-total ingress origin correction c f =
    let (_, t1) = sub_time-total ingress origin f.elapsed in
    let (normal, t2) = sub_time-total (sub_time ingress origin) correction f.corrected in
    let (normal', t3) = raw_offset-total c.port_ds.delay_mechanism c _ normal f.delayed in
    (normal', rw⁻¹ t1 (rw⁻¹ t2 t3))

update_offset-unfiltered :
    (ingress origin correction : TimeInternal) (c : PtpClock)
    → (unfiltered ingress origin correction c).seconds ≢ pos 0
    → ((update_offset ingress origin correction c).current_ds.offset_from_master
        ≡ unfiltered ingress origin correction c)
      × ((update_offset ingress origin correction c).ofm_filt ≡ c.ofm_filt)
      × (c.port_ds.port_state ≡ slave
          → (update_offset ingress origin correction c).events
            ≡ set_flag c.events Event.synchronization_fault)
unfolding unfiltered update_offset store_offset flag_in
update_offset-unfiltered ingress origin correction c far = ground (arith, far)

flag_in-offset :
    (st : PortState) (mask : ℕ) (c : PtpClock) → (flag_in st mask c).current_ds ≡ c.current_ds
unfolding flag_in
flag_in-offset st mask c = refl

check_offset-offset : (c : PtpClock) → (check_offset c).current_ds ≡ c.current_ds
unfolding check_offset flag_in
check_offset-offset c = ground arith

offset_seconds :
    (ingress origin correction : TimeInternal) (c : PtpClock)
    → (update_offset ingress origin correction c).current_ds.offset_from_master.seconds
      ≡ (unfiltered ingress origin correction c).seconds
unfolding unfiltered update_offset filter_offset store_offset
offset_seconds ingress origin correction c =
    let d = store_offset (sub_time (sub_time ingress origin) correction) c in
    elim (Bool-cases (eqb_ℤ d.current_ds.offset_from_master.seconds (pos 0))) [
      | inl near ↦
          rw near (ap (λ o. o.offset_from_master.seconds) (check_offset-offset (filter_offset d)))
      | inr far ↦ rw far (
          ap (λ o. o.offset_from_master.seconds)
            (flag_in-offset slave Event.synchronization_fault d))
    ]

-- When the offset that `updateOffset` leaves is a second or more, and the three differences stay in
-- s32_t, it is exact: the time of packet_of less the time of origin, the correction and the path
-- delay, as a normal time. The filter keeps its state, and a slave raises SYNCHRONIZATION_FAULT.
pub update_offset-total :
    (ingress origin correction : TimeInternal) (c : PtpClock)
    → OffsetFits ingress origin correction c
    → (update_offset ingress origin correction c).current_ds.offset_from_master.seconds ≢ pos 0
    → (total (update_offset ingress origin correction c).current_ds.offset_from_master
        ≡ total ingress
          -ℤ total origin
          -ℤ total correction
          -ℤ total (path_delay c.port_ds.delay_mechanism c))
      × IsNormal (update_offset ingress origin correction c).current_ds.offset_from_master
      × ((update_offset ingress origin correction c).ofm_filt ≡ c.ofm_filt)
      × (c.port_ds.port_state ≡ slave
          → (update_offset ingress origin correction c).events
            ≡ set_flag c.events Event.synchronization_fault)
update_offset-total ingress origin correction c fits far =
    let apart = rw (offset_seconds ingress origin correction c) at far in
    let (same, filt, flagged) = update_offset-unfiltered ingress origin correction c apart in
    let (normal, keep) = unfiltered-total ingress origin correction c fits in
    (ap total same ∙ keep, rw same normal, filt, flagged)

-- The sums of `updateDelay` stay in s32_t.
pub record DelayFits (egress receipt correction : TimeInternal) (c : PtpClock) : Type 0 where
  pub elapsed : DifferenceFits receipt egress
  pub corrected : DifferenceFits (sub_time receipt egress) correction
  pub summed : SumFits c.tms (sub_time (sub_time receipt egress) correction)
  pub seconds_in : IsS32 (add_time c.tms (sub_time (sub_time receipt egress) correction)).seconds

-- Half of the way to the master and back, before it is filtered.
half_way : TimeInternal → TimeInternal → TimeInternal → PtpClock → TimeInternal
half_way egress receipt correction c =
    div2_time (add_time c.tms (sub_time (sub_time receipt egress) correction))

update_delay-half_way :
    (egress receipt correction : TimeInternal) (c : PtpClock)
    → c.ofm_filt.n ≢ pos 0
    → (update_delay egress receipt correction c).current_ds.mean_path_delay ≡ (
        if eqb_ℤ (pos 0) (half_way egress receipt correction c).seconds
        then time
            (half_way egress receipt correction c).seconds
            (filter (half_way egress receipt correction c).nanoseconds c.owd_filt).0
        else half_way egress receipt correction c)
unfolding update_delay half_way
update_delay-half_way egress receipt correction c started =
    rw begun (elim (Bool-cases (eqb_ℤ (pos 0) (half_way egress receipt correction c).seconds)) [
      | inl near ↦ rw near refl
      | inr far ↦ rw far refl
    ])
  where
    begun : eqb_ℤ (pos 0) c.ofm_filt.n ≡ false
    begun = ground (arith, started)

-- Once an offset was filtered, and while the sums stay in s32_t, `updateDelay` stores half of the way to the master and back, rounded
-- towards zero: exactly when it is a second or more, and otherwise what the filter makes of it.
pub update_delay-total :
    (egress receipt correction : TimeInternal) (c : PtpClock)
    → c.ofm_filt.n ≢ pos 0
    → DelayFits egress receipt correction c
    → (mean : TimeInternal) × IsNormal mean
      × (total mean ≡ tdiv (total c.tms +ℤ (total receipt -ℤ total egress -ℤ total correction)) 2)
      × ((update_delay egress receipt correction c).current_ds.mean_path_delay ≡ (
          if eqb_ℤ (pos 0) mean.seconds
          then time mean.seconds (filter mean.nanoseconds c.owd_filt).0
          else mean))
unfolding half_way
update_delay-total egress receipt correction c started fits =
    let (_, t1) = sub_time-total receipt egress fits.elapsed in
    let (_, t2) = sub_time-total (sub_time receipt egress) correction fits.corrected in
    let (n3, t3) =
      add_time-total c.tms (sub_time (sub_time receipt egress) correction) fits.summed in
    let (n4, t4) = div2_time-total _ n3 fits.seconds_in in
    (
      half_way egress receipt correction c,
      n4,
      rw⁻¹ t1 (rw⁻¹ t2 (rw⁻¹ t3 t4)),
      update_delay-half_way egress receipt correction c started,
    )

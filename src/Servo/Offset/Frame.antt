-- ===== src/Servo/Offset/Frame.antt =====
-- The state of the port under the measurements of src/servo.c.
use ptpd_lwip.Prelude.Int.{eqb_ℤ, pos}
use ptpd_lwip.Prelude.{Bool-cases, refl, Bool, ℕ, ltb, inl, inr}
use ptpd_lwip.Arith.{sub_time, div2_time, add_time}
use ptpd_lwip.Types.Clock.{PtpClock}
use ptpd_lwip.Types.Time.{TimeInternal}
use ptpd_lwip.Types.Opt.{PortState, uncalibrated, slave}
use ptpd_lwip.Bmc.Spares.{Spares, Spares-trans, spared}
use ptpd_lwip.Servo.Offset.{
  update_offset, update_delay, update_peer_delay, check_offset, filter_offset, store_offset,
  flag_in, abs, turnaround,
}
use ptpd_lwip.Types.Opt.Default
use ptpd_lwip.Types.Opt.Event

flag_in-Spares : (st : PortState) (mask : ℕ) (c : PtpClock) → Spares c (flag_in st mask c)
unfolding flag_in
flag_in-Spares st mask c = spared refl refl refl refl refl refl

check_offset-Spares : (c : PtpClock) → Spares c (check_offset c)
unfolding check_offset
check_offset-Spares c =
    let size = abs c.current_ds.offset_from_master.nanoseconds in
    elim (Bool-cases (ltb size Default.calibrated_offset_ns)) [
      | inl small ↦
          rw (small, check_offset) (flag_in-Spares uncalibrated Event.master_clock_selected c)
      | inr large ↦ elim (Bool-cases (ltb Default.uncalibrated_offset_ns size)) [
        | inl lost ↦
            rw (large, lost, check_offset) (flag_in-Spares slave Event.synchronization_fault c)
        | inr kept ↦ rw (large, kept, check_offset) (spared refl refl refl refl refl refl)
      ]
    ]

filter_offset-Spares : (c : PtpClock) → Spares c (filter_offset c)
unfolding filter_offset
filter_offset-Spares c = spared refl refl refl refl refl refl

store_offset-Spares : (t : TimeInternal) (c : PtpClock) → Spares c (store_offset t c)
unfolding store_offset
store_offset-Spares t c = spared refl refl refl refl refl refl

module _ (c : PtpClock) where
  pub update_offset-Spares :
      (t origin correction : TimeInternal) → Spares c (update_offset t origin correction c)
  update_offset-Spares t origin correction =
      let d = store_offset (sub_time (sub_time t origin) correction) c in
      let stored = store_offset-Spares (sub_time (sub_time t origin) correction) c in
      unfold update_offset in
      elim (Bool-cases (eqb_ℤ d.current_ds.offset_from_master.seconds (pos 0))) [
        | inl within ↦ rw within (
            Spares-trans stored
              (Spares-trans (filter_offset-Spares d) (check_offset-Spares (filter_offset d))))
        | inr far ↦
            rw far (Spares-trans stored (flag_in-Spares slave Event.synchronization_fault d))
      ]

  pub update_delay-Spares :
      (t received correction : TimeInternal) → Spares c (update_delay t received correction c)
  unfolding update_delay
  update_delay-Spares t received correction =
      let tsm = sub_time (sub_time received t) correction in
      let mean = div2_time (add_time c.tms tsm) in
      elim (Bool-cases (eqb_ℤ (pos 0) c.ofm_filt.n)) [
        | inl first ↦ rw first (spared refl refl refl refl refl refl)
        | inr later ↦ elim (Bool-cases (eqb_ℤ (pos 0) mean.seconds)) [
          | inl short ↦ rw (later, short) (spared refl refl refl refl refl refl)
          | inr long ↦ rw (later, long) (spared refl refl refl refl refl refl)
        ]
      ]

  pub update_peer_delay-Spares :
      (correction : TimeInternal) (two_step : Bool)
      → Spares c (update_peer_delay correction two_step c)
  unfolding update_peer_delay
  update_peer_delay-Spares correction two_step =
      let mean = div2_time (sub_time (turnaround two_step c) correction) in
      elim (Bool-cases (eqb_ℤ mean.seconds (pos 0))) [
        | inl short ↦ rw short (spared refl refl refl refl refl refl)
        | inr long ↦ rw long (spared refl refl refl refl refl refl)
      ]

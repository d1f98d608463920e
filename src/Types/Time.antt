-- ===== src/Types/Time.antt =====
-- Times: timeInternal_t of src/def/datatypes_private.h and timestamp_t of
-- src/def/datatypes_public.h.
use ptpd_lwip.Prelude.{ℕ, ◌^◌, ◌<◌}
use ptpd_lwip.Prelude.Int.{ℤ, pos, ◌+ℤ◌, ◌*ℤ◌}
use ptpd_lwip.Prelude.Word.{IsS32}

pub record TimeInternal : Type 0 where
  pub seconds : ℤ  -- s32_t
  pub nanoseconds : ℤ  -- s32_t

pub record U48 : Type 0 where
  pub lsb : ℕ  -- u32_t
  pub msb : ℕ  -- u16_t

pub record Timestamp : Type 0 where
  pub seconds_field : U48
  pub nanoseconds_field : ℕ  -- u32_t

abbrev pub time : ℤ → ℤ → TimeInternal
time s n = record { seconds = s; nanoseconds = n }

abbrev pub zero_time : TimeInternal
zero_time = time (pos 0) (pos 0)

abbrev pub timestamp : ℕ → ℕ → ℕ → Timestamp
timestamp m l n = record { seconds_field = record { lsb = l; msb = m }; nanoseconds_field = n }

-- The fields are within their C types.
pub record IsTime (t : TimeInternal) : Type 0 where
  pub seconds_in : IsS32 t.seconds
  pub nanoseconds_in : IsS32 t.nanoseconds

pub record IsTimestamp (t : Timestamp) : Type 0 where
  pub msb_in : t.seconds_field.msb < 2 ^ 16
  pub lsb_in : t.seconds_field.lsb < 2 ^ 32
  pub nanoseconds_in : t.nanoseconds_field < 2 ^ 32

-- The number of nanoseconds that a time stands for.
unfoldable pub total : TimeInternal → ℤ
total t = t.seconds *ℤ 1000000000 +ℤ t.nanoseconds

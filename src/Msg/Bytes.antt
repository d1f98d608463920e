-- ===== src/Msg/Bytes.antt =====
-- Reads and writes of src/msg.c through pointers into a buffer. `flip16` and `flip32` are `htons`
-- and `htonl`, so the octets of a number stand in network order whatever the byte order of the
-- machine.
use ptpd_lwip.Types.Message.{ClockIdentity}
use ptpd_lwip.Types.Time.{Timestamp, timestamp}
use ptpd_lwip.Prelude.{
  ℕ, if◌then◌else◌, ◌/◌, bit_or, ◌*◌, bit_and, leb, ◌^◌, ◌+◌, ◌==◌, ◌&&◌, ◌%◌, ltb,
}
use ptpd_lwip.Types.Clock.{Buffer}

-- buf[off] = v
abbrev pub write : Buffer → ℕ → ℕ → Buffer
write buf off v q = if q == off then v else buf q

-- *(s16_t*)(buf + off) = flip16(v)
abbrev pub put16 : Buffer → ℕ → ℕ → Buffer
put16 buf off v = write (write buf off (v / 256)) (off + 1) (v % 256)

-- *(u32_t*)(buf + off) = flip32(v)
abbrev pub put32 : Buffer → ℕ → ℕ → Buffer
put32 buf off v = put16 (put16 buf off (v / 2 ^ 16)) (off + 2) (v % 2 ^ 16)

-- memset(buf + off, 0, n)
abbrev pub clear : Buffer → ℕ → ℕ → Buffer
clear buf off n q = if leb off q && ltb q (off + n) then 0 else buf q

-- memcpy(buf + off, i, CLOCK_IDENTITY_LENGTH)
abbrev pub put_identity : Buffer → ℕ → ClockIdentity → Buffer
put_identity buf off i =
    let b1 = write (write buf off i.o0) (off + 1) i.o1 in
    let b3 = write (write b1 (off + 2) i.o2) (off + 3) i.o3 in
    let b5 = write (write b3 (off + 4) i.o4) (off + 5) i.o5 in
    write (write b5 (off + 6) i.o6) (off + 7) i.o7

-- flip16(*(s16_t*)(buf + off))
abbrev pub get16 : Buffer → ℕ → ℕ
get16 buf off = buf off * 256 + buf (off + 1)

-- flip32(*(u32_t*)(buf + off))
abbrev pub get32 : Buffer → ℕ → ℕ
get32 buf off = get16 buf off * 2 ^ 16 + get16 buf (off + 2)

-- memcpy(i, buf + off, CLOCK_IDENTITY_LENGTH)
abbrev pub get_identity : Buffer → ℕ → ClockIdentity
get_identity buf off = record {
  o0 = buf off;
  o1 = buf (off + 1);
  o2 = buf (off + 2);
  o3 = buf (off + 3);
  o4 = buf (off + 4);
  o5 = buf (off + 5);
  o6 = buf (off + 6);
  o7 = buf (off + 7);
}

-- The two lines on `buf + 0`: the low nibble becomes the message type.
abbrev pub put_type : Buffer → ℕ → Buffer
put_type buf t = write buf 0 (bit_or (bit_and (buf 0) 0xf0) t)

-- The three lines that write a timestamp at `buf + 34`, and those that read one there.
abbrev pub put_timestamp : Buffer → Timestamp → Buffer
put_timestamp buf t =
    let b1 = put16 buf 34 t.seconds_field.msb in
    put32 (put32 b1 36 t.seconds_field.lsb) 40 t.nanoseconds_field

abbrev pub get_timestamp : Buffer → Timestamp
get_timestamp buf = timestamp (get16 buf 34) (get32 buf 36) (get32 buf 40)

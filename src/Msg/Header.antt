-- ===== src/Msg/Header.antt =====
-- The header that `msgPackHeader` of src/msg.c writes once, and that each message is written over.
use ptpd_lwip.Msg.Unpack.{msg_unpack_header, get_port}
use ptpd_lwip.Msg.Octets.{join16, u16-lt, s16-u16}
use ptpd_lwip.Prelude.Word.{s16, IsS16, u16}
use ptpd_lwip.Msg.Bytes.{get16, get_identity}
use ptpd_lwip.Types.Message.{MsgHeader}
use ptpd_lwip.Prelude.Int.{ℤ, pos}
use ptpd_lwip.Msg.Pack.{msg_pack_header}
use ptpd_lwip.Prelude.{
  ℕ, ◌<◌, all_below, bit_or, ◌/◌, bit_and, ◌≡◌, ◌^◌, true, ==_iff, arith, all_below-lt, ◌==◌, ap,
  ◌&&◌, ◌∙◌, ltb, Bool-cases, inl, inr, refl,
}
use ptpd_lwip.Types.Clock.{Buffer, PtpClock}
use ptpd_lwip.Types.Opt.Flag

unfoldable pub typed : ℕ → ℕ → ℕ
typed b t = bit_or (bit_and b 0xf0) t

typed_table :
    all_below 256 (λ b. all_below 16 (λ t.
      (bit_and (typed b t) 0x0f == t) && (typed b t / 2 ^ 4 == b / 2 ^ 4) && ltb (typed b t) 256))
    ≡ true
unfolding all_below typed
typed_table = refl

-- Writing the type over an octet changes its low nibble only.
typed_lem :
    (b t : ℕ)
    → b < 256
    → t < 16
    → (bit_and (typed b t) 0x0f ≡ t) × (typed b t / 2 ^ 4 ≡ b / 2 ^ 4) × (typed b t < 256)
typed_lem b t hb ht = ground (arith, all_below-lt _ 16 t ht (all_below-lt _ 256 b hb typed_table))

nibble_table : all_below 16 (λ v. bit_and v 0x0f == v) ≡ true
unfolding all_below
nibble_table = refl

nibble_lem : (v : ℕ) → v < 16 → bit_and v 0x0f ≡ v
nibble_lem v h = (==_iff _ v).0 (all_below-lt _ 16 v h nibble_table)

-- The buffer holds the constant part of the header of the clock `c`.
pub record HasHeader (c : PtpClock) (buf : Buffer) : Type 0 where
  pub octet : buf 0 < 256
  pub transport : buf 0 / 2 ^ 4 ≡ 8
  pub version : buf 1 ≡ c.port_ds.version_number
  pub domain : buf 4 ≡ c.default_ds.domain_number
  pub two_step : c.default_ds.two_step_flag ≡ true → buf 6 ≡ Flag.two_step
  pub identity : get_identity buf 20 ≡ c.port_ds.port_identity.clock_identity
  pub port : get16 buf 28 ≡ u16 c.port_ds.port_identity.port_number

-- What a receiver reads in the header of a message of `c`, of the given type, length and number.
pub record Describes (c : PtpClock) (type len : ℕ) (seq : ℤ) (h : MsgHeader) : Type 0 where
  pub transport : h.transport_specific ≡ 8
  pub type_is : h.message_type ≡ type
  pub version : h.version_ptp ≡ c.port_ds.version_number
  pub length_is : h.message_length ≡ pos len
  pub domain : h.domain_number ≡ c.default_ds.domain_number
  pub two_step : c.default_ds.two_step_flag ≡ true → h.flag_field0 ≡ Flag.two_step
  pub source : h.source_port_identity ≡ c.port_ds.port_identity
  pub sequence : h.sequence_id ≡ seq

-- `msgPackHeader` writes the header of its clock over any buffer.
pub pack_header-HasHeader : (c : PtpClock) (buf : Buffer) → HasHeader c (msg_pack_header c buf)
unfolding msg_pack_header
pack_header-HasHeader c buf = elim (Bool-cases c.default_ds.two_step_flag) [
  | inl on ↦ rw on (record {
    octet = omega arith;
    transport = refl;
    version = refl;
    domain = refl;
    two_step = λ e. refl;
    identity = refl;
    port = join16 (u16 c.port_ds.port_identity.port_number) (u16-lt _);
  })
  | inr off ↦ rw off (record {
    octet = omega arith;
    transport = refl;
    version = refl;
    domain = refl;
    two_step = λ e. cc;
    identity = refl;
    port = join16 (u16 c.port_ds.port_identity.port_number) (u16-lt _);
  })
]

-- What a packer leaves in `out`, beside the body of the message: the type over the first octet,
-- the length, the sequence number, and the constant part of the header as it was in `buf`.
pub record IsStamped (type len : ℕ) (seq : ℤ) (buf out : Buffer) : Type 0 where
  pub head : out 0 ≡ typed (buf 0) type
  pub version : out 1 ≡ buf 1
  pub length_is : s16 (pos (get16 out 2)) ≡ pos len
  pub domain : out 4 ≡ buf 4
  pub flags : out 6 ≡ buf 6
  pub identity : get_identity out 20 ≡ get_identity buf 20
  pub port : get16 out 28 ≡ get16 buf 28
  pub sequence : s16 (pos (get16 out 30)) ≡ seq

module _ (c : PtpClock) {type len : ℕ} {seq : ℤ} {buf out : Buffer}
    (v : c.port_ds.version_number < 16) (p : IsS16 c.port_ds.port_identity.port_number)
    (t : type < 16) (h : HasHeader c buf) (s : IsStamped type len seq buf out) where
  pub stamped-HasHeader : HasHeader c out
  stamped-HasHeader = record {
    octet = ground (arith, s.head, typed_lem (buf 0) type h.octet t);
    transport = ap (λ x. x / 2 ^ 4) s.head ∙ (typed_lem (buf 0) type h.octet t).1 ∙ h.transport;
    version = s.version ∙ h.version;
    domain = s.domain ∙ h.domain;
    two_step = λ e. s.flags ∙ h.two_step e;
    identity = s.identity ∙ h.identity;
    port = s.port ∙ h.port;
  }

  source-eq : get_port out 20 28 ≡ c.port_ds.port_identity
  source-eq = λ i. record {
    clock_identity = (s.identity ∙ h.identity) i;
    port_number = (ap (λ x. s16 (pos x)) (s.port ∙ h.port) ∙ s16-u16 _ p) i;
  }

  pub stamped-Describes : Describes c type len seq (msg_unpack_header out)
  unfolding msg_unpack_header
  stamped-Describes = record {
    transport = stamped-HasHeader.transport;
    type_is = ap (λ x. bit_and x 0x0f) s.head ∙ (typed_lem (buf 0) type h.octet t).0;
    version = ap (λ x. bit_and x 0x0f) (s.version ∙ h.version) ∙ nibble_lem _ v;
    length_is = s.length_is;
    domain = s.domain ∙ h.domain;
    two_step = λ e. s.flags ∙ h.two_step e;
    source = source-eq;
    sequence = s.sequence;
  }

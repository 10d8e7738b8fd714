-- ===== src/Hdlc/Fields/RoundTrip.antt =====
-- Encoding and decoding of the control fields and the format field (dlms_cosem/hdlc/fields.py).
use dlms_cosem.Prelude.{
  ℕ, ◌+◌, ◌*◌, ◌/◌, ◌%◌, ◌≤◌, ◌<◌, ◌≡◌, Bool, true, false, [], ◌∷◌, ◌>>=◌, ok, Bool-cases,
  if◌then◌else◌, ◌⊎◌, inl, inr, hdlc_parsing_error, raise, arith, ◌==◌, value_error,
}
use dlms_cosem.Hdlc.Fields.Bits.{
  low_bit, ssn_bits, rsn_bits, final_bit, or_final, high_nibble, segmentation_bit, length_bits,
  or_format_type, or_segmented,
}
use dlms_cosem.Hdlc.Fields.Information
use dlms_cosem.Hdlc.Fields.Information.{InformationControlField}
use dlms_cosem.Hdlc.Fields.ReceiveReady
use dlms_cosem.Hdlc.Fields.ReceiveReady.{ReceiveReadyControlField}
use dlms_cosem.Hdlc.Fields.FrameFormat
use dlms_cosem.Hdlc.Fields.FrameFormat.{DlmsHdlcFrameFormatField}

abbrev bit_of : ℕ → Bool
bit_of n = n % 2 == 1

abbrev pub info_byte : ℕ → ℕ → Bool → ℕ
info_byte ssn rsn true = 2 * ssn + 32 * rsn + 16
info_byte ssn rsn false = 2 * ssn + 32 * rsn

pub info_byte-IsByte :
    (ssn rsn : ℕ) (final : Bool) → ssn ≤ 7 → rsn ≤ 7 → info_byte ssn rsn final < 256
info_byte-IsByte ssn rsn true s r = omega arith
info_byte-IsByte ssn rsn false s r = omega arith

pub info-to_bytes :
    (f : InformationControlField)
    → f.send_sequence_number ≤ 7
    → f.receive_sequence_number ≤ 7
    → Information.to_bytes f
      ≡ ok (info_byte f.send_sequence_number f.receive_sequence_number f.final ∷ [])
unfolding Information.to_bytes
info-to_bytes f s r =
    ground (arith, or_final (f.send_sequence_number * 2 + f.receive_sequence_number * 32))

info-from_byte :
    (b : ℕ)
    → b < 256
    → b % 2 ≡ 0
    → Information.from_bytes (b ∷ [])
      ≡ ok (record {
        send_sequence_number = b / 2 % 8;
        receive_sequence_number = b / 32;
        final = bit_of (b / 16);
      })
unfolding Information.from_bytes
info-from_byte b h e = ground (arith, low_bit b h, ssn_bits b h, rsn_bits b h, final_bit b h)

info-from_byte_odd :
    (b : ℕ) → b < 256 → b % 2 ≡ 1 → Information.from_bytes (b ∷ []) ≡ raise value_error
unfolding Information.from_bytes
info-from_byte_odd b h e = ground (arith, low_bit b h)

-- An InformationControlField with both sequence numbers up to 7 is read back from its byte.
pub info-round_trip :
    (f : InformationControlField)
    → f.send_sequence_number ≤ 7
    → f.receive_sequence_number ≤ 7
    → (Information.to_bytes f >>= Information.from_bytes) ≡ ok f
info-round_trip f s r = rw (info-to_bytes f s r) (
    ground
      (arith, info-from_byte (info_byte f.send_sequence_number f.receive_sequence_number f.final)))

-- The byte from which an InformationControlField is read is the byte that it is written as.
pub info-from_bytes_inverse :
    (b : ℕ) (f : InformationControlField)
    → b < 256
    → Information.from_bytes (b ∷ []) ≡ ok f
    → Information.to_bytes f ≡ ok (b ∷ [])
info-from_bytes_inverse b f h e = elim (Bool-cases (b % 2 == 0)) [
  | inl even ↦ ground (arith, info-from_byte b h, info-to_bytes f)
  | inr odd ↦ ground (arith, info-from_byte_odd b h)
]

pub ready-from_byte :
    (b : ℕ)
    → b < 256
    → b % 2 ≡ 1
    → ReceiveReady.from_bytes (b ∷ []) ≡ ok (record { receive_sequence_number = b / 32 })
unfolding ReceiveReady.from_bytes
ready-from_byte b h e = ground (arith, low_bit b h, rsn_bits b h)

pub ready-to_bytes :
    (f : ReceiveReadyControlField)
    → f.receive_sequence_number ≤ 7
    → ReceiveReady.to_bytes f ≡ ok ((32 * f.receive_sequence_number + 17) ∷ [])
unfolding ReceiveReady.to_bytes
ready-to_bytes f h = ground (arith, or_final (1 + f.receive_sequence_number * 32))

-- A ReceiveReadyControlField with a sequence number up to 7 is read back from its byte.
pub ready-round_trip :
    (f : ReceiveReadyControlField)
    → f.receive_sequence_number ≤ 7
    → (ReceiveReady.to_bytes f >>= ReceiveReady.from_bytes) ≡ ok f
ready-round_trip f h =
    rw (ready-to_bytes f h) (ground (arith, ready-from_byte (32 * f.receive_sequence_number + 17)))

ready-from_byte_even :
    (b : ℕ) → b < 256 → b % 2 ≡ 0 → ReceiveReady.from_bytes (b ∷ []) ≡ raise value_error
unfolding ReceiveReady.from_bytes
ready-from_byte_even b h e = ground (arith, low_bit b h)

-- Every byte is read by exactly one of InformationControlField and ReceiveReadyControlField, and
-- the other raises a ValueError.
pub info_ready_disjoint :
    (b : ℕ)
    → b < 256
    → ((f : InformationControlField) × (Information.from_bytes (b ∷ []) ≡ ok f)
        × (ReceiveReady.from_bytes (b ∷ []) ≡ raise value_error))
      ⊎ ((f : ReceiveReadyControlField) × (ReceiveReady.from_bytes (b ∷ []) ≡ ok f)
          × (Information.from_bytes (b ∷ []) ≡ raise value_error))
info_ready_disjoint b h = elim (Bool-cases (b % 2 == 0)) [
  | inl even ↦ inl (_, info-from_byte b h (ground arith), ready-from_byte_even b h (ground arith))
  | inr odd ↦ inr (_, ready-from_byte b h (ground arith), info-from_byte_odd b h (ground arith))
]

pub format-to_bytes :
    (f : DlmsHdlcFrameFormatField)
    → f.length_of_frame < 2048
    → FrameFormat.to_bytes f
      ≡ ok (
          (if f.segmented
            then (0xa8 + f.length_of_frame / 256)
            else (0xa0 + f.length_of_frame / 256))
          ∷ (f.length_of_frame % 256)
          ∷ [])
unfolding FrameFormat.to_bytes
format-to_bytes f h =
    ground (arith, or_format_type f.length_of_frame h, or_segmented f.length_of_frame h)

pub format-from_bytes :
    (a b : ℕ)
    → a < 256
    → b < 256
    → FrameFormat.from_bytes (a ∷ b ∷ []) ≡ (
        if a / 16 == 10
        then ok (record { length_of_frame = (a * 256 + b) % 2048; segmented = bit_of (a / 8) })
        else raise hdlc_parsing_error)
unfolding FrameFormat.from_bytes
format-from_bytes a b ha hb =
    ground (arith, high_nibble a ha, segmentation_bit a ha, length_bits (a * 256 + b) (omega arith))

-- A frame format field with a length under 2048 is read back from its two bytes.
pub format-round_trip :
    (f : DlmsHdlcFrameFormatField)
    → f.length_of_frame < 2048
    → (FrameFormat.to_bytes f >>= FrameFormat.from_bytes) ≡ ok f
format-round_trip f h = rw (format-to_bytes f h) (
    ground (
      arith,
      format-from_bytes (0xa8 + f.length_of_frame / 256) (f.length_of_frame % 256),
      format-from_bytes (0xa0 + f.length_of_frame / 256) (f.length_of_frame % 256),
    ))

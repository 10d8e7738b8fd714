-- ===== src/Hdlc/Fields/Information.antt =====
-- InformationControlField (dlms_cosem/hdlc/fields.py).
use dlms_cosem.Prelude.{ℕ, ◌+◌, Bool, not, List, Result, ok, require, ◌>>◌, value_error}
use dlms_cosem.Prelude.{◌==◌, length, bit_and, shl, shr, truthy, int_to_bytes, int_from_bytes}
use dlms_cosem.Hdlc.Validators.{validate_information_sequence_number}
use dlms_cosem.Hdlc.Fields.Final.{set_final}

pub record InformationControlField : Type 0 where
  pub send_sequence_number : ℕ
  pub receive_sequence_number : ℕ
  pub final : Bool

unfoldable pub make : ℕ → ℕ → Bool → Result InformationControlField
unfolding validate_information_sequence_number
make ssn rsn final = do
  validate_information_sequence_number ssn
  validate_information_sequence_number rsn
  ok (record { send_sequence_number = ssn; receive_sequence_number = rsn; final = final })

unfoldable pub to_bytes : InformationControlField → Result (List ℕ)
unfolding set_final
to_bytes f =
    int_to_bytes 1
      (set_final f.final (shl f.send_sequence_number 1 + shl f.receive_sequence_number 5))

unfoldable pub from_bytes : List ℕ → Result InformationControlField
unfolding make
from_bytes in_byte = do
  require (length in_byte == 1) value_error
  let value = int_from_bytes in_byte
  require (not (truthy (bit_and value 0b00000001))) value_error
  let ssn = shr (bit_and value 0b00001110) 1
  let rsn = shr (bit_and value 0b11100000) 5
  make ssn rsn (truthy (bit_and value 0b00010000))

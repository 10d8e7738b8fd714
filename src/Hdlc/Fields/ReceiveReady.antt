-- ===== src/Hdlc/Fields/ReceiveReady.antt =====
-- ReceiveReadyControlField (dlms_cosem/hdlc/fields.py).
use dlms_cosem.Prelude.{ℕ, ◌+◌, List, Result, ok, require, ◌>>◌, value_error}
use dlms_cosem.Prelude.{◌==◌, length, bit_and, shl, shr, truthy, int_to_bytes, int_from_bytes}
use dlms_cosem.Hdlc.Validators.{validate_information_sequence_number}
use dlms_cosem.Hdlc.Fields.Final.{is_final_method, set_final}

pub record ReceiveReadyControlField : Type 0 where
  pub receive_sequence_number : ℕ

unfoldable pub make : ℕ → Result ReceiveReadyControlField
unfolding validate_information_sequence_number
make rsn = do
  validate_information_sequence_number rsn
  ok (record { receive_sequence_number = rsn })

unfoldable pub to_bytes : ReceiveReadyControlField → Result (List ℕ)
unfolding set_final
to_bytes f =
    int_to_bytes 1 (set_final is_final_method (0b00000001 + shl f.receive_sequence_number 5))

unfoldable pub from_bytes : List ℕ → Result ReceiveReadyControlField
unfolding make
from_bytes in_byte = do
  require (length in_byte == 1) value_error
  let value = int_from_bytes in_byte
  require (truthy (bit_and value 0b00000001)) value_error
  make (shr (bit_and value 0b11100000) 5)

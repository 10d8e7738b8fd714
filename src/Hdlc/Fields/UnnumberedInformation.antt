-- ===== src/Hdlc/Fields/UnnumberedInformation.antt =====
-- UnnumberedInformationControlField (dlms_cosem/hdlc/fields.py).
use dlms_cosem.Prelude.{ℕ, Bool, List, Result, ok, require, ◌>>◌, value_error}
use dlms_cosem.Prelude.{◌==◌, length, bit_and, truthy, int_to_bytes, int_from_bytes}
use dlms_cosem.Hdlc.Fields.Final.{set_final}

pub record UnnumberedInformationControlField : Type 0 where
  pub final : Bool

unfoldable pub to_bytes : UnnumberedInformationControlField → Result (List ℕ)
unfolding set_final
to_bytes f = int_to_bytes 1 (set_final f.final 0b00000011)

unfoldable pub from_bytes : List ℕ → Result UnnumberedInformationControlField
from_bytes in_byte = do
  require (length in_byte == 1) value_error
  let value = int_from_bytes in_byte
  require (truthy (bit_and value 0b00000011)) value_error
  ok (record { final = truthy (bit_and value 0b00010000) })

-- ===== src/Hdlc/Fields/Final.antt =====
-- The poll/final bit of a control field (dlms_cosem/hdlc/fields.py).
use dlms_cosem.Prelude.{ℕ, Bool, true, if◌then◌else◌, bit_or}

-- `is_final` of the SNRM, UA, DISC and RR fields is a method that the code reads as an attribute:
-- what it tests is the bound method, which is true.
abbrev pub is_final_method : Bool
is_final_method = true

-- `if self.is_final: out |= 0b00010000`
unfoldable pub set_final : Bool → ℕ → ℕ
set_final final out = if final then bit_or out 0x10 else out

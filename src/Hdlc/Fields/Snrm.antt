-- ===== src/Hdlc/Fields/Snrm.antt =====
-- SnrmControlField (dlms_cosem/hdlc/fields.py).
use dlms_cosem.Prelude.{ℕ, List, Result, int_to_bytes}
use dlms_cosem.Hdlc.Fields.Final.{is_final_method, set_final}

unfoldable pub to_bytes : Result (List ℕ)
unfolding set_final
to_bytes = int_to_bytes 1 (set_final is_final_method 0b10000011)

-- ===== src/Hdlc/Validators.antt =====
-- dlms_cosem/hdlc/validators.py: the attribute validators, which return or raise ValueError.
-- The values that reach them are never negative, so they are natural numbers here and the tests
-- against 0 always pass.
use dlms_cosem.Prelude.{ℕ, Option, none, some}
use dlms_cosem.Prelude.{leb, Result, ok, raise, require, value_error}

pub data AddressType : Type 0 where
  client server : AddressType
  -- any other string
  unknown : AddressType

unfoldable pub validate_information_sequence_number : ℕ → Result (Unit {0})
validate_information_sequence_number value = require (leb value 7) value_error

unfoldable pub validate_hdlc_address_type : AddressType → Result (Unit {0})
validate_hdlc_address_type client = ok tt
validate_hdlc_address_type server = ok tt
validate_hdlc_address_type unknown = raise value_error

unfoldable pub address_limit : AddressType → ℕ
address_limit client = 0x7f
address_limit server = 0x3fff
address_limit unknown = 0x3fff

-- The physical address alone may be `None`.
unfoldable pub validate_hdlc_address : AddressType → Option ℕ → Result (Unit {0})
unfolding address_limit
validate_hdlc_address address_type none = ok tt
validate_hdlc_address address_type (some value) =
    require (leb value (address_limit address_type)) value_error

-- ===== src/Security/Methods.antt =====
-- The authentication methods of dlms_cosem/security.py, with the attributes of each class.
use dlms_cosem.Prelude.{ℕ, Option, none, some, List}

pub data AuthenticationMethod : Type 0 where
  no_security : AuthenticationMethod
  low_level : Option (List ℕ) → AuthenticationMethod
  -- the challenge of the client, drawn when the object is made
  high_level_gmac : List ℕ → AuthenticationMethod
  high_level_common : List ℕ → AuthenticationMethod

-- `authentication_method`: the value of AuthenticationMechanism.
unfoldable pub authentication_mechanism : AuthenticationMethod → ℕ
authentication_mechanism no_security = 0
authentication_mechanism (low_level secret) = 1
authentication_mechanism (high_level_gmac challenge) = 5
authentication_mechanism (high_level_common secret) = 2

unfoldable pub get_calling_authentication_value : AuthenticationMethod → Option (List ℕ)
get_calling_authentication_value no_security = none
get_calling_authentication_value (low_level secret) = secret
get_calling_authentication_value (high_level_gmac challenge) = some challenge
get_calling_authentication_value (high_level_common secret) = some secret

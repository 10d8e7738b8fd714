-- ===== src/Xdlms/GetRequest/Kind.antt =====
-- GetRequestType of dlms_cosem/enumerations.py.
use dlms_cosem.Prelude.{ℕ, List, [], ◌∷◌, Result, member_of}

pub data GetRequestType : Type 0 where
  normal next with_list : GetRequestType

unfoldable pub get_request_type_value : GetRequestType → ℕ
get_request_type_value normal = 1
get_request_type_value next = 2
get_request_type_value with_list = 3

abbrev get_request_type_members : List (ℕ × GetRequestType)
get_request_type_members = (1, normal) ∷ (2, next) ∷ (3, with_list) ∷ []

-- `GetRequestType(n)`
unfoldable pub get_request_type : ℕ → Result GetRequestType
get_request_type n = member_of get_request_type_members n

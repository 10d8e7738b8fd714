-- ===== src/Xdlms/GetResponse/Kind.antt =====
-- GetResponseType (dlms_cosem/enumerations.py).
use dlms_cosem.Prelude.{ℕ, ◌≡◌, refl, ◌==◌, if◌then◌else◌, Result, ok, raise, value_error}

pub data GetResponseType : Type 0 where
  normal : GetResponseType
  with_block : GetResponseType
  with_list : GetResponseType

unfoldable pub get_response_type_value : GetResponseType → ℕ
get_response_type_value normal = 1
get_response_type_value with_block = 2
get_response_type_value with_list = 3

-- `GetResponseType(n)`: a ValueError where no member has the value.
unfoldable pub get_response_type : ℕ → Result GetResponseType
get_response_type n =
    if n == 1
    then ok normal
    else if n == 2
    then ok with_block
    else if n == 3
    then ok with_list
    else raise value_error

pub get_response_type-value :
    (e : GetResponseType) → get_response_type (get_response_type_value e) ≡ ok e
unfolding get_response_type get_response_type_value
get_response_type-value normal = refl
get_response_type-value with_block = refl
get_response_type-value with_list = refl

-- ===== src/Xdlms/Set/ResponseKind.antt =====
-- SetResponseType of dlms_cosem/enumerations.py.
use dlms_cosem.Prelude.{ℕ, List, [], ◌∷◌, Result, member_of}

pub data SetResponseType : Type 0 where
  normal with_block with_last_block last_block_with_list : SetResponseType
  with_list : SetResponseType

unfoldable pub set_response_type_value : SetResponseType → ℕ
set_response_type_value normal = 1
set_response_type_value with_block = 2
set_response_type_value with_last_block = 3
set_response_type_value last_block_with_list = 4
set_response_type_value with_list = 5

abbrev set_response_type_members : List (ℕ × SetResponseType)
set_response_type_members =
    (1, normal)
    ∷ (2, with_block)
    ∷ (3, with_last_block)
    ∷ (4, last_block_with_list)
    ∷ (5, with_list)
    ∷ []

-- `SetResponseType(n)`
unfoldable pub set_response_type : ℕ → Result SetResponseType
set_response_type n = member_of set_response_type_members n

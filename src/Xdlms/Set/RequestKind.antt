-- ===== src/Xdlms/Set/RequestKind.antt =====
-- SetRequestType of dlms_cosem/enumerations.py.
use dlms_cosem.Prelude.{ℕ, List, [], ◌∷◌, Result, member_of}

pub data SetRequestType : Type 0 where
  normal with_first_block with_block with_list : SetRequestType
  first_block_with_list : SetRequestType

unfoldable pub set_request_type_value : SetRequestType → ℕ
set_request_type_value normal = 1
set_request_type_value with_first_block = 2
set_request_type_value with_block = 3
set_request_type_value with_list = 4
set_request_type_value first_block_with_list = 5

abbrev set_request_type_members : List (ℕ × SetRequestType)
set_request_type_members =
    (1, normal)
    ∷ (2, with_first_block)
    ∷ (3, with_block)
    ∷ (4, with_list)
    ∷ (5, first_block_with_list)
    ∷ []

-- `SetRequestType(n)`
unfoldable pub set_request_type : ℕ → Result SetRequestType
set_request_type n = member_of set_request_type_members n

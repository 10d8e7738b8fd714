-- ===== src/Xdlms/Action/Kind.antt =====
-- ActionType of dlms_cosem/enumerations.py.
use dlms_cosem.Prelude.{ℕ, ◌<◌, ◌≡◌, refl, arith, List, [], ◌∷◌, Result, ok, member_of}

pub data ActionType : Type 0 where
  normal next_pblock with_list with_first_pblock : ActionType
  with_list_and_first_pblock with_pblock : ActionType

unfoldable pub action_type_value : ActionType → ℕ
action_type_value normal = 1
action_type_value next_pblock = 2
action_type_value with_list = 3
action_type_value with_first_pblock = 4
action_type_value with_list_and_first_pblock = 5
action_type_value with_pblock = 6

abbrev action_type_members : List (ℕ × ActionType)
action_type_members =
    (1, normal)
    ∷ (2, next_pblock)
    ∷ (3, with_list)
    ∷ (4, with_first_pblock)
    ∷ (5, with_list_and_first_pblock)
    ∷ (6, with_pblock)
    ∷ []

-- `ActionType(n)`
unfoldable pub action_type : ℕ → Result ActionType
action_type n = member_of action_type_members n

pub action_type_lem : (k : ActionType) → action_type (action_type_value k) ≡ ok k
unfolding action_type action_type_value
action_type_lem normal = refl
action_type_lem _ = refl

pub action_type_bound : (k : ActionType) → action_type_value k < 256
unfolding action_type_value
action_type_bound normal = omega arith
action_type_bound _ = omega arith

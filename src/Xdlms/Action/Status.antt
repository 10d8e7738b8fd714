-- ===== src/Xdlms/Action/Status.antt =====
-- ActionResultStatus of dlms_cosem/enumerations.py.
use dlms_cosem.Prelude.{ℕ, ◌<◌, ◌≡◌, refl, arith, List, [], ◌∷◌, Result, ok, member_of}

pub data ActionResultStatus : Type 0 where
  success hardware_fault temporary_failure read_write_denied : ActionResultStatus
  object_undefined object_class_inconsistent object_unavailable type_unmatched : ActionResultStatus
  scope_of_access_violated data_block_unavailable long_action_aborted no_long_action_in_progress :
      ActionResultStatus
  other_reason : ActionResultStatus

unfoldable pub action_result_status_value : ActionResultStatus → ℕ
action_result_status_value success = 0
action_result_status_value hardware_fault = 1
action_result_status_value temporary_failure = 2
action_result_status_value read_write_denied = 3
action_result_status_value object_undefined = 4
action_result_status_value object_class_inconsistent = 9
action_result_status_value object_unavailable = 11
action_result_status_value type_unmatched = 12
action_result_status_value scope_of_access_violated = 13
action_result_status_value data_block_unavailable = 14
action_result_status_value long_action_aborted = 15
action_result_status_value no_long_action_in_progress = 16
action_result_status_value other_reason = 250

abbrev action_result_status_members : List (ℕ × ActionResultStatus)
action_result_status_members =
    (0, success)
    ∷ (1, hardware_fault)
    ∷ (2, temporary_failure)
    ∷ (3, read_write_denied)
    ∷ (4, object_undefined)
    ∷ (9, object_class_inconsistent)
    ∷ (11, object_unavailable)
    ∷ (12, type_unmatched)
    ∷ (13, scope_of_access_violated)
    ∷ (14, data_block_unavailable)
    ∷ (15, long_action_aborted)
    ∷ (16, no_long_action_in_progress)
    ∷ (250, other_reason)
    ∷ []

-- `ActionResultStatus(n)`
unfoldable pub action_result_status : ℕ → Result ActionResultStatus
action_result_status n = member_of action_result_status_members n

pub action_result_status_lem :
    (k : ActionResultStatus) → action_result_status (action_result_status_value k) ≡ ok k
unfolding action_result_status action_result_status_value
action_result_status_lem success = refl
action_result_status_lem _ = refl

pub action_result_status_bound : (k : ActionResultStatus) → action_result_status_value k < 256
unfolding action_result_status_value
action_result_status_bound success = omega arith
action_result_status_bound _ = omega arith

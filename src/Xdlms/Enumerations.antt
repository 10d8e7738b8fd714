-- ===== src/Xdlms/Enumerations.antt =====
-- The enumerations of dlms_cosem/enumerations.py that the GET service uses.
use dlms_cosem.Prelude.{
  ℕ, ◌<◌, ◌≡◌, refl, arith, ◌==◌, if◌then◌else◌, Result, ok, raise, value_error,
}

pub data DataAccessResult : Type 0 where
  success : DataAccessResult
  hardware_fault : DataAccessResult
  temporary_failure : DataAccessResult
  read_write_denied : DataAccessResult
  object_undefined : DataAccessResult
  object_class_inconsistent : DataAccessResult
  object_unavailable : DataAccessResult
  type_unmatched : DataAccessResult
  scope_of_access_violated : DataAccessResult
  data_block_unavailable : DataAccessResult
  long_get_aborted : DataAccessResult
  no_long_get_in_progress : DataAccessResult
  long_set_aborted : DataAccessResult
  no_long_set_in_progress : DataAccessResult
  data_block_number_invalid : DataAccessResult
  other_reason : DataAccessResult

unfoldable pub data_access_result_value : DataAccessResult → ℕ
data_access_result_value success = 0
data_access_result_value hardware_fault = 1
data_access_result_value temporary_failure = 2
data_access_result_value read_write_denied = 3
data_access_result_value object_undefined = 4
data_access_result_value object_class_inconsistent = 9
data_access_result_value object_unavailable = 11
data_access_result_value type_unmatched = 12
data_access_result_value scope_of_access_violated = 13
data_access_result_value data_block_unavailable = 14
data_access_result_value long_get_aborted = 15
data_access_result_value no_long_get_in_progress = 16
data_access_result_value long_set_aborted = 17
data_access_result_value no_long_set_in_progress = 18
data_access_result_value data_block_number_invalid = 19
data_access_result_value other_reason = 250

-- `DataAccessResult(n)`: a ValueError where no member has the value.
unfoldable pub data_access_result : ℕ → Result DataAccessResult
data_access_result n =
    if n == 0
    then ok success
    else if n == 1
    then ok hardware_fault
    else if n == 2
    then ok temporary_failure
    else if n == 3
    then ok read_write_denied
    else if n == 4
    then ok object_undefined
    else if n == 9
    then ok object_class_inconsistent
    else if n == 11
    then ok object_unavailable
    else if n == 12
    then ok type_unmatched
    else if n == 13
    then ok scope_of_access_violated
    else if n == 14
    then ok data_block_unavailable
    else if n == 15
    then ok long_get_aborted
    else if n == 16
    then ok no_long_get_in_progress
    else if n == 17
    then ok long_set_aborted
    else if n == 18
    then ok no_long_set_in_progress
    else if n == 19
    then ok data_block_number_invalid
    else if n == 250
    then ok other_reason
    else raise value_error

pub data_access_result-value :
    (e : DataAccessResult) → data_access_result (data_access_result_value e) ≡ ok e
unfolding data_access_result data_access_result_value
data_access_result-value success = refl
data_access_result-value hardware_fault = refl
data_access_result-value temporary_failure = refl
data_access_result-value read_write_denied = refl
data_access_result-value object_undefined = refl
data_access_result-value object_class_inconsistent = refl
data_access_result-value object_unavailable = refl
data_access_result-value type_unmatched = refl
data_access_result-value scope_of_access_violated = refl
data_access_result-value data_block_unavailable = refl
data_access_result-value long_get_aborted = refl
data_access_result-value no_long_get_in_progress = refl
data_access_result-value long_set_aborted = refl
data_access_result-value no_long_set_in_progress = refl
data_access_result-value data_block_number_invalid = refl
data_access_result-value other_reason = refl

pub data_access_result_bound : (e : DataAccessResult) → data_access_result_value e < 256
unfolding data_access_result_value
data_access_result_bound success = omega arith
data_access_result_bound _ = omega arith

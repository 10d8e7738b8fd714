-- ===== src/Association/State.antt =====
-- DlmsConnectionState (dlms_cosem/state.py).
use dlms_cosem.Prelude.{
  Option, none, some, List, [], ◌∷◌, Result, ok, ◌>>=◌, or_raise, local_dlms_protocol_error,
}

pub data DlmsState : Type 0 where
  no_association awaiting_association_response ready awaiting_release_response : DlmsState
  awaiting_get_response awaiting_set_response : DlmsState
  should_send_hls_sever_challenge_result awaiting_action_response : DlmsState
  awaiting_hls_client_challenge_result hls_done should_ack_last_get_block : DlmsState
  awaiting_get_block_response : DlmsState

-- The types of the events: APDU classes, and the flow control classes of state.py.
pub data EventType : Type 0 where
  application_association_request application_association_response : EventType
  exception_response release_request get_request_normal get_request_with_list : EventType
  set_request_normal hls_start reject_association action_request_normal : EventType
  data_notification end_association action_response_normal_with_data : EventType
  action_response_normal action_response_normal_with_error hls_success hls_failed : EventType
  get_response_normal get_response_with_list get_response_with_block : EventType
  get_response_normal_with_error get_response_last_block_with_error : EventType
  get_response_last_block set_response_normal get_request_next release_response : EventType
  -- any other class
  other_event : EventType

-- DLMS_STATE_TRANSITIONS; `none` is a KeyError.
unfoldable pub dlms_state_transitions : DlmsState → EventType → Option DlmsState
dlms_state_transitions no_association application_association_request =
    some awaiting_association_response
dlms_state_transitions awaiting_association_response application_association_response = some ready
dlms_state_transitions awaiting_association_response exception_response = some no_association
dlms_state_transitions ready release_request = some awaiting_release_response
dlms_state_transitions ready get_request_normal = some awaiting_get_response
dlms_state_transitions ready get_request_with_list = some awaiting_get_response
dlms_state_transitions ready set_request_normal = some awaiting_set_response
dlms_state_transitions ready hls_start = some should_send_hls_sever_challenge_result
dlms_state_transitions ready reject_association = some no_association
dlms_state_transitions ready action_request_normal = some awaiting_action_response
dlms_state_transitions ready data_notification = some ready
dlms_state_transitions ready end_association = some no_association
dlms_state_transitions should_send_hls_sever_challenge_result action_request_normal =
    some awaiting_hls_client_challenge_result
dlms_state_transitions awaiting_hls_client_challenge_result action_response_normal_with_data =
    some hls_done
dlms_state_transitions awaiting_hls_client_challenge_result action_response_normal =
    some no_association
dlms_state_transitions awaiting_hls_client_challenge_result action_response_normal_with_error =
    some no_association
dlms_state_transitions hls_done hls_success = some ready
dlms_state_transitions hls_done hls_failed = some no_association
dlms_state_transitions awaiting_get_response get_response_normal = some ready
dlms_state_transitions awaiting_get_response get_response_with_list = some ready
dlms_state_transitions awaiting_get_response get_response_with_block =
    some should_ack_last_get_block
dlms_state_transitions awaiting_get_response get_response_normal_with_error = some ready
dlms_state_transitions awaiting_get_response exception_response = some ready
dlms_state_transitions awaiting_get_block_response get_response_with_block =
    some should_ack_last_get_block
dlms_state_transitions awaiting_get_block_response get_response_normal_with_error = some ready
dlms_state_transitions awaiting_get_block_response exception_response = some ready
dlms_state_transitions awaiting_get_block_response get_response_last_block_with_error = some ready
dlms_state_transitions awaiting_get_block_response get_response_last_block = some ready
dlms_state_transitions awaiting_set_response set_response_normal = some ready
dlms_state_transitions awaiting_action_response action_response_normal = some ready
dlms_state_transitions awaiting_action_response action_response_normal_with_data = some ready
dlms_state_transitions awaiting_action_response action_response_normal_with_error = some ready
dlms_state_transitions should_ack_last_get_block get_request_next = some awaiting_get_block_response
dlms_state_transitions awaiting_release_response release_response = some no_association
dlms_state_transitions awaiting_release_response exception_response = some ready
dlms_state_transitions _ _ = none

-- `process_event`: the new state, or the exception that leaves the state as it was.
unfoldable pub process_event : DlmsState → EventType → Result DlmsState
process_event current_state event_type =
    or_raise local_dlms_protocol_error (dlms_state_transitions current_state event_type)

-- Events in a row, up to the first that is refused.
unfoldable pub process_events : DlmsState → List EventType → Result DlmsState
process_events s [] = ok s
process_events s (e ∷ es) = do s' ← process_event s e; process_events s' es

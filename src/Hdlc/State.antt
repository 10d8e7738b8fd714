-- ===== src/Hdlc/State.antt =====
-- HdlcConnectionState (dlms_cosem/hdlc/state.py).
use dlms_cosem.Prelude.{Option, none, some, Result, or_raise, local_protocol_error}
use dlms_cosem.Hdlc.Frames.Defs.{
  FrameClass, set_normal_response_mode, unnumbered_acknowledgment, receive_ready, information_class,
  disconnect,
}

pub data HdlcState : Type 0 where
  not_connected idle awaiting_response awaiting_connection awaiting_disconnect closed : HdlcState

-- HDLC_STATE_TRANSITIONS; `none` is a KeyError.
unfoldable pub hdlc_state_transitions : HdlcState → FrameClass → Option HdlcState
hdlc_state_transitions not_connected set_normal_response_mode = some awaiting_connection
hdlc_state_transitions awaiting_connection unnumbered_acknowledgment = some idle
hdlc_state_transitions idle information_class = some awaiting_response
hdlc_state_transitions idle disconnect = some awaiting_disconnect
hdlc_state_transitions idle receive_ready = some awaiting_response
hdlc_state_transitions awaiting_response information_class = some idle
hdlc_state_transitions awaiting_response receive_ready = some idle
hdlc_state_transitions awaiting_disconnect unnumbered_acknowledgment = some not_connected
hdlc_state_transitions _ _ = none

-- `process_frame`: the new state, or the exception that leaves the state as it was.
unfoldable pub process_frame : HdlcState → FrameClass → Result HdlcState
process_frame current_state frame_type =
    or_raise local_protocol_error (hdlc_state_transitions current_state frame_type)

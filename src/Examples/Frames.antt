-- ===== src/Examples/Frames.antt =====
-- The frames without sequence numbers, and the connection that they set up, at concrete inputs.
use dlms_cosem.Prelude.{
  ℕ, ◌≡◌, ◌≢◌, refl, arith, true, false, none, some, List, [], ◌∷◌, ◌++◌, ok, ◌>>=◌,
}
use dlms_cosem.Hdlc.State.{awaiting_connection, idle, hdlc_state_transitions}
use dlms_cosem.Hdlc.Address.Defs.{address_length}
use dlms_cosem.Hdlc.Address.Defs as Address
use dlms_cosem.Hdlc.Address.Wire.{IsReadable, two_bytes, client_address, server_address}
use dlms_cosem.Hdlc.Fields.FrameFormat
use dlms_cosem.Hdlc.Fields.Ua
use dlms_cosem.Hdlc.Frames.Defs.{
  hdlc_flag, header_content, control_bytes, frame_content, information, hcs, fcs, frame_length,
  receive_ready, unnumbered_information,
}
use dlms_cosem.Hdlc.Frames.Defs as Frame
use dlms_cosem.Hdlc.Frames.Parse.{
  acknowledgment_from_bytes, receive_ready_from_bytes, unnumbered_from_bytes,
}
use dlms_cosem.Hdlc.Frames.Bytes.{to_client}
use dlms_cosem.Hdlc.Frames.ReceiveReadyRoundTrip.{receive_ready_from_bytes-to_bytes}
use dlms_cosem.Hdlc.Frames.UnnumberedRoundTrip.{unnumbered_from_bytes-to_bytes}
use dlms_cosem.Hdlc.Frames.AcknowledgmentRoundTrip.{ua_frame, acknowledgment_from_bytes-to_bytes}
use dlms_cosem.Hdlc.Connection.Defs.{HdlcConnection, next_event, received}
use dlms_cosem.Hdlc.Connection.Acknowledged.{next_event-acknowledgment}
use dlms_cosem.Crc.Defs.{
  calculate_for, calculate_from, crc_step, crc_ccitt_table, reverse_byte, reverse_byte_message,
  output_byte,
}

-- A meter with the logical address 1 and the physical address 17.
abbrev meter : IsReadable (server_address 1 (some 17) false)
meter = two_bytes 1 17 (omega arith) (omega arith) (omega arith) (omega arith)

receive_ready_from_bytes-to_bytes_example :
    (let f = to_client 16 meter (omega arith) receive_ready none false true 0 4 in
      ((Frame.to_bytes f >>= receive_ready_from_bytes)
        ≡ ok (record f { final = Frame.final_method }))
      × (record f { final = Frame.final_method } ≢ f))
receive_ready_from_bytes-to_bytes_example =
    receive_ready_from_bytes-to_bytes 16 meter (omega arith) 4 (omega arith)

unnumbered_from_bytes-to_bytes_example :
    (let f =
        to_client 16 meter
          (omega arith)
          unnumbered_information
          (some (0x0f ∷ []))
          false
          false
          0
          0 in
      (Frame.to_bytes f >>= unnumbered_from_bytes) ≡ ok f)
unnumbered_from_bytes-to_bytes_example =
    unnumbered_from_bytes-to_bytes 16 meter (omega arith) (0x0f ∷ []) false false (omega arith)
      (omega arith)

acknowledgment_from_bytes-to_bytes_example :
    (let f = ua_frame 16 meter (omega arith) (0x81 ∷ []) in
      (Frame.to_bytes f >>= acknowledgment_from_bytes) ≡ ok f)
acknowledgment_from_bytes-to_bytes_example =
    acknowledgment_from_bytes-to_bytes 16 meter (omega arith) (0x81 ∷ []) (omega arith)
      (omega arith)

abbrev ua_body : List ℕ
ua_body = 0xa0 ∷ 0x08 ∷ 0x21 ∷ 0x02 ∷ 0x23 ∷ 0x73 ∷ 0x7a ∷ 0x43 ∷ []

ua_bytes :
    Frame.to_bytes (ua_frame 16 meter (omega arith) [])
    ≡ ok (hdlc_flag ∷ (ua_body ++ (hdlc_flag ∷ [])))
unfolding Frame.to_bytes fcs frame_content header_content hcs frame_length control_bytes information
    Address.to_bytes address_length FrameFormat.make FrameFormat.to_bytes Ua.to_bytes calculate_for
    calculate_from crc_step crc_ccitt_table reverse_byte reverse_byte_message output_byte
ua_bytes = refl

-- A client that has sent its request for the connection.
abbrev connecting : List ℕ → HdlcConnection
connecting bytes = record {
  client_address = client_address 16;
  server_address = server_address 1 (some 17) false;
  client_ssn = 0;
  client_rsn = 0;
  server_ssn = 0;
  server_rsn = 0;
  max_data_size = 128;
  state = awaiting_connection;
  buffer = bytes;
  buffer_search_position = 1;
}

connects : hdlc_state_transitions awaiting_connection Frame.unnumbered_acknowledgment ≡ some idle
unfolding hdlc_state_transitions
connects = refl

next_event-acknowledgment_example :
    next_event (connecting (hdlc_flag ∷ (ua_body ++ (hdlc_flag ∷ 0x7e ∷ [])))) ≡ (
      record (connecting (0x7e ∷ [])) { state = idle },
      ok (received (ua_frame 16 meter (omega arith) [])),
    )
next_event-acknowledgment_example =
    next_event-acknowledgment 16 meter (omega arith) []
      (connecting (hdlc_flag ∷ (ua_body ++ (hdlc_flag ∷ 0x7e ∷ [])))) idle ua_body (0x7e ∷ []) tt
      (omega arith) connects ua_bytes (ground arith) refl refl

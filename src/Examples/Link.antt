-- ===== src/Examples/Link.antt =====
-- The theorems of the link layer at concrete frames, addresses and connections.
use dlms_cosem.Prelude.{
  index_error, ℕ, ◌≡◌, inl, refl, arith, true, false, some, List, [], ◌∷◌, ◌++◌, ok, raise, ◌>>=◌,
  IsBytes, local_protocol_error,
}
use dlms_cosem.Hdlc.State.{idle, awaiting_response, process_frame, hdlc_state_transitions}
use dlms_cosem.Hdlc.Address.Defs.{HdlcAddress, make, address_length}
use dlms_cosem.Hdlc.Address.Defs as Address
use dlms_cosem.Hdlc.Address.Wire.{client_address, server_address, IsReadable, two_bytes, four_bytes}
use dlms_cosem.Hdlc.Fields.FrameFormat
use dlms_cosem.Hdlc.Fields.Information
use dlms_cosem.Hdlc.Frames.Defs.{
  HdlcFrame, FrameClass, information_class, set_normal_response_mode, base_frame, hdlc_flag,
  header_content, control_bytes, frame_content, information, hcs, fcs, frame_length,
}
use dlms_cosem.Hdlc.Frames.Defs as Frame
use dlms_cosem.Hdlc.Frames.Parse.{information_from_bytes}
use dlms_cosem.Hdlc.Frames.Bytes.{to_client}
use dlms_cosem.Hdlc.Frames.InformationRoundTrip.{information_from_bytes-to_bytes}
use dlms_cosem.Hdlc.Connection.Defs.{
  HdlcConnection, new, send, next_event, count_frame, find_frame, received, need_data,
}
use dlms_cosem.Hdlc.Connection.Invariant.{
  IsValid, sending, receiving, polling, perform_all, reachable-IsValid,
}
use dlms_cosem.Hdlc.Connection.Sending.{Sent, send_information, send_refused_moves}
use dlms_cosem.Hdlc.Connection.Receiving.{Waited, next_event_waits}
use dlms_cosem.Hdlc.Connection.ShortFrame.{short_frame_raises}
use dlms_cosem.Hdlc.Connection.Delivery.{next_event-information}
use dlms_cosem.Crc.Defs.{
  calculate_for, calculate_from, crc_step, crc_ccitt_table, reverse_byte, reverse_byte_message,
  output_byte,
}

-- A meter with the logical address 1 and the physical address 17.
abbrev meter : IsReadable (server_address 1 (some 17) false)
meter = two_bytes 1 17 (omega arith) (omega arith) (omega arith) (omega arith)

abbrev far_meter : IsReadable (server_address 1 (some 17) true)
far_meter = four_bytes 1 17 (omega arith) (omega arith) (omega arith)

small_payload : IsBytes (0xe6 ∷ 0xe7 ∷ 0x00 ∷ [])
small_payload = (omega arith, (omega arith, (omega arith, tt)))

information_from_bytes-to_bytes_example :
    (let f =
        to_client 16 meter
          (omega arith)
          information_class
          (some (0xe6 ∷ 0xe7 ∷ 0x00 ∷ []))
          true
          true
          3
          5 in
      (Frame.to_bytes f >>= information_from_bytes) ≡ ok f)
information_from_bytes-to_bytes_example =
    information_from_bytes-to_bytes 16 meter (omega arith) (0xe6 ∷ 0xe7 ∷ 0x00 ∷ []) true true 3 5
      (omega arith) (omega arith) small_payload (omega arith)

abbrev response : HdlcFrame
response =
    to_client 16 meter (omega arith) information_class (some (0xe6 ∷ 0xe7 ∷ 0x00 ∷ [])) false true 0
      0

abbrev response_body : List ℕ
response_body =
    0xa0 ∷ 0x0d ∷ 0x21 ∷ 0x02 ∷ 0x23 ∷ 0x10 ∷ 0xb3 ∷ 0x34 ∷ 0xe6 ∷ 0xe7 ∷ 0x00 ∷ 0x9e ∷ 0xb4 ∷ []

response_bytes : Frame.to_bytes response ≡ ok (hdlc_flag ∷ (response_body ++ (hdlc_flag ∷ [])))
unfolding Frame.to_bytes fcs frame_content header_content hcs frame_length control_bytes information
    Address.to_bytes address_length FrameFormat.make FrameFormat.to_bytes Information.make
    Information.to_bytes calculate_for calculate_from crc_step crc_ccitt_table reverse_byte
    reverse_byte_message output_byte
response_bytes = refl

-- A client that waits for the response, with the frame and one more byte in its buffer.
abbrev waiting : List ℕ → HdlcConnection
waiting bytes = record {
  client_address = client_address 16;
  server_address = server_address 1 (some 17) false;
  client_ssn = 0;
  client_rsn = 0;
  server_ssn = 0;
  server_rsn = 0;
  max_data_size = 128;
  state = awaiting_response;
  buffer = bytes;
  buffer_search_position = 1;
}

abbrev at_rest : HdlcConnection
at_rest = record (waiting []) { state = idle }

waiting-IsValid : (bytes : List ℕ) → IsValid (waiting bytes)
waiting-IsValid bytes = record {
  sent_agree = refl;
  received_agree = refl;
  sent_small = omega arith;
  received_small = omega arith;
  searched = omega arith;
}

next_event-information_example :
    next_event (waiting (hdlc_flag ∷ (response_body ++ (hdlc_flag ∷ 0xa0 ∷ [])))) ≡ (
      record (waiting (0xa0 ∷ [])) { client_ssn = 1; server_rsn = 1; state = idle },
      ok (received response),
    )
next_event-information_example =
    next_event-information 16 meter (omega arith) (0xe6 ∷ 0xe7 ∷ 0x00 ∷ []) false true 0 0
      (waiting (hdlc_flag ∷ (response_body ++ (hdlc_flag ∷ 0xa0 ∷ [])))) response_body (0xa0 ∷ [])
      (omega arith) (omega arith) small_payload (omega arith)
      (waiting-IsValid (hdlc_flag ∷ (response_body ++ (hdlc_flag ∷ 0xa0 ∷ [])))) refl refl refl
      response_bytes (ground arith) refl refl

reachable-IsValid_example : IsValid (
    perform_all
      (new (client_address 16) (server_address 1 (some 17) false))
      (sending response ∷ receiving response_body ∷ polling ∷ []))
reachable-IsValid_example =
    reachable-IsValid (client_address 16) (server_address 1 (some 17) false)
      (sending response ∷ receiving response_body ∷ polling ∷ [])

sent_response : send at_rest response ≡ (
  record (waiting []) { client_rsn = 1; server_ssn = 1 },
  ok (hdlc_flag ∷ (response_body ++ (hdlc_flag ∷ []))),
)
unfolding send process_frame hdlc_state_transitions count_frame
sent_response = rw response_bytes refl

send_information_example :
    Sent at_rest response
      (record (waiting []) { client_rsn = 1; server_ssn = 1 })
      (hdlc_flag ∷ (response_body ++ (hdlc_flag ∷ [])))
send_information_example =
    send_information at_rest response (record (waiting []) { client_rsn = 1; server_ssn = 1 })
      (hdlc_flag ∷ (response_body ++ (hdlc_flag ∷ []))) refl
      (record {
        sent_agree = refl;
        received_agree = refl;
        sent_small = omega arith;
        received_small = omega arith;
        searched = omega arith;
      })
      sent_response

send_refused_moves_example :
    send at_rest (record response { send_sequence_number = 5 })
    ≡ (waiting [], raise local_protocol_error)
send_refused_moves_example =
    send_refused_moves at_rest (record response { send_sequence_number = 5 }) refl refl
      (inl (ground arith))

starved : next_event (waiting (0x7e ∷ 0xa0 ∷ [])) ≡ (waiting (0x7e ∷ 0xa0 ∷ []), ok need_data)
unfolding next_event find_frame
starved = refl

next_event_waits_example : Waited (waiting (0x7e ∷ 0xa0 ∷ [])) (waiting (0x7e ∷ 0xa0 ∷ []))
next_event_waits_example =
    next_event_waits (waiting (0x7e ∷ 0xa0 ∷ [])) (waiting (0x7e ∷ 0xa0 ∷ [])) starved

short_frame_raises_example : next_event (waiting (0x7e ∷ 0xa0 ∷ 0x02 ∷ 0x7e ∷ 0xa0 ∷ [])) ≡ (
  record (waiting (0x7e ∷ 0xa0 ∷ 0x02 ∷ 0x7e ∷ 0xa0 ∷ [])) { buffer_search_position = 4 },
  raise index_error,
)
short_frame_raises_example =
    short_frame_raises (waiting (0x7e ∷ 0xa0 ∷ 0x02 ∷ 0x7e ∷ 0xa0 ∷ [])) (0xa0 ∷ []) refl refl refl

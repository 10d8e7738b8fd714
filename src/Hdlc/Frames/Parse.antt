-- ===== src/Hdlc/Frames/Parse.antt =====
-- Reading frames from bytes: the `from_bytes` methods of dlms_cosem/hdlc/frames.py.
use dlms_cosem.Prelude.{
  ℕ, ◌+◌, ◌-◌, Bool, true, false, not, ◌||◌, some, List, [], ◌∷◌, ◌==◌, if◌then◌else◌, length, take,
  drop, slice, bytes_eq, Result, ok, ◌>>=◌, ◌>>◌, require, hdlc_parsing_error, missing_hdlc_flags,
  byte_at,
}
use dlms_cosem.Hdlc.Validators.{AddressType, client, server}
use dlms_cosem.Hdlc.Address.Defs.{HdlcAddress, address_length}
use dlms_cosem.Hdlc.Address.Parse.{destination_from_bytes, source_from_bytes}
use dlms_cosem.Hdlc.Fields.FrameFormat
use dlms_cosem.Hdlc.Fields.FrameFormat.{DlmsHdlcFrameFormatField}
use dlms_cosem.Hdlc.Fields.ReceiveReady
use dlms_cosem.Hdlc.Fields.Information
use dlms_cosem.Hdlc.Fields.UnnumberedInformation
use dlms_cosem.Hdlc.Frames.Defs.{
  HdlcFrame, final_flag, final_method, unnumbered_acknowledgment, receive_ready, information_class,
  disconnect, unnumbered_information, base_frame, hdlc_flag, validated, hcs, fcs,
}

-- `bs[-1]`
abbrev pub last_byte : List ℕ → Result ℕ
last_byte bs = byte_at bs (length bs - 1)

unfoldable pub frame_is_enclosed_by_hdlc_flags : List ℕ → Result Bool
frame_is_enclosed_by_hdlc_flags frame = do
  first ← byte_at frame 0
  last ← last_byte frame
  ok (
      if not (first == last)
      then false
      else if not (first == hdlc_flag) || not (last == hdlc_flag)
      then false
      else true)

unfoldable pub frame_has_correct_length : ℕ → List ℕ → Bool
frame_has_correct_length control_field_length frame = control_field_length + 2 == length frame

unfoldable pub extract_format_field_from_bytes : List ℕ → Result DlmsHdlcFrameFormatField
extract_format_field_from_bytes frame = FrameFormat.from_bytes (slice frame 1 3)

-- The checks that open every `from_bytes`.
unfoldable pub open_frame : List ℕ → Result DlmsHdlcFrameFormatField
unfolding frame_is_enclosed_by_hdlc_flags frame_has_correct_length extract_format_field_from_bytes
open_frame frame = do
  enclosed ← frame_is_enclosed_by_hdlc_flags frame
  require enclosed missing_hdlc_flags
  frame_format ← extract_format_field_from_bytes frame
  require (frame_has_correct_length frame_format.length_of_frame frame) hdlc_parsing_error
  ok frame_format

pub record Addresses : Type 0 where
  pub destination : HdlcAddress
  pub source : HdlcAddress
  pub control_position : ℕ

-- Both addresses, and the position of the control byte behind them.
unfoldable pub read_addresses : List ℕ → AddressType → AddressType → Result Addresses
read_addresses frame to from = do
  destination ← destination_from_bytes frame to
  source ← source_from_bytes frame from
  destination_length ← address_length destination
  source_length ← address_length source
  ok (record {
    destination = destination;
    source = source;
    control_position = 1 + 2 + destination_length + source_length;
  })

-- `frame_bytes[-3:-1]`
abbrev pub frame_check_of : List ℕ → List ℕ
frame_check_of frame = drop (length frame - 3) (take (length frame - 1) frame)

-- `frame_bytes[position:-3]`
abbrev pub slice_to_check : List ℕ → ℕ → List ℕ
slice_to_check frame position = drop position (take (length frame - 3) frame)

unfoldable pub check_fcs : List ℕ → HdlcFrame → Result HdlcFrame
check_fcs frame_bytes frame = do
  calculated ← fcs frame
  require (bytes_eq (frame_check_of frame_bytes) calculated) hdlc_parsing_error
  ok frame

-- The header check sequence of `InformationFrame` and `UnnumberedInformationFrame`.
unfoldable pub check_both : List ℕ → ℕ → HdlcFrame → Result HdlcFrame
unfolding check_fcs
check_both frame_bytes hcs_position frame = do
  calculated ← hcs frame
  require (bytes_eq (slice frame_bytes hcs_position (hcs_position + 2)) calculated)
      hdlc_parsing_error
  check_fcs frame_bytes frame

-- `if frame.hcs: ...`: the sequence is compared only where the frame has one.
unfoldable pub hcs_agrees : List ℕ → List ℕ → Bool
hcs_agrees in_data [] = true
hcs_agrees in_data (b ∷ bs) = bytes_eq in_data (b ∷ bs)

-- UnNumberedAcknowledgmentFrame.from_bytes
unfoldable pub acknowledgment_from_bytes : List ℕ → Result HdlcFrame
unfolding hcs_agrees
acknowledgment_from_bytes frame_bytes = do
  _ ← open_frame frame_bytes
  addresses ← read_addresses frame_bytes client server
  let hcs_position = addresses.control_position + 1
  let information = slice_to_check frame_bytes (hcs_position + 2)
  let frame = record (base_frame unnumbered_acknowledgment addresses.destination addresses.source) {
    payload = some information;
  }
  calculated ← hcs frame
  require (hcs_agrees (slice frame_bytes hcs_position (hcs_position + 2)) calculated)
      hdlc_parsing_error
  check_fcs frame_bytes frame

-- ReceiveReadyFrame.from_bytes. `final=control.is_final` stores the method, not what it returns.
unfoldable pub receive_ready_from_bytes : List ℕ → Result HdlcFrame
receive_ready_from_bytes frame_bytes = do
  _ ← open_frame frame_bytes
  addresses ← read_addresses frame_bytes client server
  let position = addresses.control_position
  control ← ReceiveReady.from_bytes (slice frame_bytes position (position + 1))
  frame ← validated (record (base_frame receive_ready addresses.destination addresses.source) {
    final = final_method;
    receive_sequence_number = control.receive_sequence_number;
  })
  check_fcs frame_bytes frame

-- InformationFrame.from_bytes
unfoldable pub information_from_bytes : List ℕ → Result HdlcFrame
information_from_bytes frame_bytes = do
  frame_format ← open_frame frame_bytes
  addresses ← read_addresses frame_bytes client server
  let position = addresses.control_position
  control ← Information.from_bytes (slice frame_bytes position (position + 1))
  let hcs_position = position + 1
  frame ← validated (record {
    frame_class = information_class;
    destination_address = addresses.destination;
    source_address = addresses.source;
    payload = some (slice_to_check frame_bytes (hcs_position + 2));
    segmented = frame_format.segmented;
    final = final_flag control.final;
    send_sequence_number = control.send_sequence_number;
    receive_sequence_number = control.receive_sequence_number;
  })
  check_both frame_bytes hcs_position frame

-- DisconnectFrame.from_bytes: the only frame that is read on the side of the server.
unfoldable pub disconnect_from_bytes : List ℕ → Result HdlcFrame
disconnect_from_bytes frame_bytes = do
  _ ← open_frame frame_bytes
  destination ← destination_from_bytes frame_bytes server
  source ← source_from_bytes frame_bytes client
  check_fcs frame_bytes (base_frame disconnect destination source)

-- UnnumberedInformationFrame.from_bytes
unfoldable pub unnumbered_from_bytes : List ℕ → Result HdlcFrame
unnumbered_from_bytes frame_bytes = do
  frame_format ← open_frame frame_bytes
  addresses ← read_addresses frame_bytes client server
  let position = addresses.control_position
  control ← UnnumberedInformation.from_bytes (slice frame_bytes position (position + 1))
  let hcs_position = position + 1
  check_both frame_bytes hcs_position
      (record (base_frame unnumbered_information addresses.destination addresses.source) {
        payload = some (slice_to_check frame_bytes (hcs_position + 2));
        segmented = frame_format.segmented;
        final = final_flag control.final;
      })

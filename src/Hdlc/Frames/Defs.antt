-- ===== src/Hdlc/Frames/Defs.antt =====
-- The frame classes of dlms_cosem/hdlc/frames.py and their bytes. One record holds the attributes
-- of every class; a class leaves those it does not have at their defaults.
use dlms_cosem.Prelude.{
  ℕ, ◌+◌, Bool, true, false, Option, none, some, List, [], ◌∷◌, ◌++◌, length, Result, ok, ◌>>=◌,
  ◌>>◌,
}
use dlms_cosem.Hdlc.Validators.{validate_information_sequence_number}
use dlms_cosem.Hdlc.Address.Defs.{HdlcAddress, address_length}
use dlms_cosem.Hdlc.Address.Defs as Address
use dlms_cosem.Hdlc.Fields.FrameFormat
use dlms_cosem.Hdlc.Fields.Snrm
use dlms_cosem.Hdlc.Fields.Ua
use dlms_cosem.Hdlc.Fields.Disconnect
use dlms_cosem.Hdlc.Fields.ReceiveReady
use dlms_cosem.Hdlc.Fields.Information
use dlms_cosem.Hdlc.Fields.UnnumberedInformation
use dlms_cosem.Crc.Defs.{calculate_for}

pub data FrameClass : Type 0 where
  set_normal_response_mode unnumbered_acknowledgment receive_ready : FrameClass
  information_class disconnect unnumbered_information : FrameClass

-- What a frame holds as `final`: a flag, or the method `is_final` of a control field, unapplied.
pub data FinalAttribute : Type 0 where
  final_flag : Bool → FinalAttribute
  final_method : FinalAttribute

-- `bool(final)`: a method counts as true.
abbrev pub is_final : FinalAttribute → Bool
is_final (final_flag final) = final
is_final final_method = true

pub record HdlcFrame : Type 0 where
  pub frame_class : FrameClass
  pub destination_address : HdlcAddress
  pub source_address : HdlcAddress
  pub payload : Option (List ℕ)
  pub segmented : Bool
  pub final : FinalAttribute
  pub send_sequence_number : ℕ
  pub receive_sequence_number : ℕ

abbrev pub hdlc_flag : ℕ
hdlc_flag = 0x7e

-- A frame with the defaults of `BaseHdlcFrame`.
abbrev pub base_frame : FrameClass → HdlcAddress → HdlcAddress → HdlcFrame
base_frame frame_class destination source = record {
  frame_class = frame_class;
  destination_address = destination;
  source_address = source;
  payload = none;
  segmented = false;
  final = final_flag true;
  send_sequence_number = 0;
  receive_sequence_number = 0;
}

-- The constructor of the classes with sequence numbers, which validates both; a ReceiveReadyFrame
-- has only the receive sequence number, and 0 for the other.
unfoldable pub validated : HdlcFrame → Result HdlcFrame
unfolding validate_information_sequence_number
validated f = do
  validate_information_sequence_number f.send_sequence_number
  validate_information_sequence_number f.receive_sequence_number
  ok f

-- `if self.payload: out.append(self.payload)`
abbrev pub payload_bytes : Option (List ℕ) → List ℕ
payload_bytes none = []
payload_bytes (some payload) = payload

unfoldable pub fixed_length_bytes : FrameClass → ℕ
fixed_length_bytes set_normal_response_mode = 5
fixed_length_bytes unnumbered_acknowledgment = 7
fixed_length_bytes receive_ready = 5
fixed_length_bytes information_class = 7
fixed_length_bytes disconnect = 5
fixed_length_bytes unnumbered_information = 7

information_of : FrameClass → Option (List ℕ) → List ℕ
information_of set_normal_response_mode payload = []
information_of unnumbered_acknowledgment payload = payload_bytes payload
information_of receive_ready payload = []
information_of information_class payload = payload_bytes payload
information_of disconnect payload = []
information_of unnumbered_information payload = payload_bytes payload

unfoldable pub information : HdlcFrame → List ℕ
unfolding information_of
information f = information_of f.frame_class f.payload

-- An acknowledgment without information has no header check sequence.
fixed_part : FrameClass → List ℕ → ℕ
unfolding fixed_length_bytes
fixed_part unnumbered_acknowledgment [] = 5
fixed_part unnumbered_acknowledgment (b ∷ bs) = fixed_length_bytes unnumbered_acknowledgment
fixed_part set_normal_response_mode info = fixed_length_bytes set_normal_response_mode
fixed_part receive_ready info = fixed_length_bytes receive_ready
fixed_part information_class info = fixed_length_bytes information_class
fixed_part disconnect info = fixed_length_bytes disconnect
fixed_part unnumbered_information info = fixed_length_bytes unnumbered_information

unfoldable pub frame_length : HdlcFrame → Result ℕ
unfolding fixed_part information
frame_length f = do
  destination_length ← address_length f.destination_address
  source_length ← address_length f.source_address
  ok (
      fixed_part f.frame_class (information f)
      + destination_length
      + source_length
      + length (information f))

-- `self.get_control_field().to_bytes()`
control_of : FrameClass → HdlcFrame → Result (List ℕ)
control_of set_normal_response_mode f = Snrm.to_bytes
control_of unnumbered_acknowledgment f = Ua.to_bytes
control_of receive_ready f = do
  field ← ReceiveReady.make f.receive_sequence_number
  ReceiveReady.to_bytes field
control_of information_class f = do
  field ← Information.make f.send_sequence_number f.receive_sequence_number (is_final f.final)
  Information.to_bytes field
control_of disconnect f = Disconnect.to_bytes
control_of unnumbered_information f =
    UnnumberedInformation.to_bytes (record { final = is_final f.final })

unfoldable pub control_bytes : HdlcFrame → Result (List ℕ)
unfolding control_of
control_bytes f = control_of f.frame_class f

unfoldable pub header_content : HdlcFrame → Result (List ℕ)
header_content f = do
  total ← frame_length f
  format ← FrameFormat.make total f.segmented
  format_bytes ← FrameFormat.to_bytes format
  destination ← Address.to_bytes f.destination_address
  source ← Address.to_bytes f.source_address
  control ← control_bytes f
  ok (format_bytes ++ (destination ++ (source ++ control)))

-- The header check sequence, where the frame has one.
hcs_of : FrameClass → List ℕ → HdlcFrame → Result (List ℕ)
hcs_of set_normal_response_mode payload f = ok []
hcs_of unnumbered_acknowledgment [] f = ok []
hcs_of unnumbered_acknowledgment (b ∷ bs) f = do
  header ← header_content f
  calculate_for header false
hcs_of receive_ready payload f = ok []
hcs_of information_class payload f = do header ← header_content f; calculate_for header false
hcs_of disconnect payload f = ok []
hcs_of unnumbered_information payload f = do header ← header_content f; calculate_for header false

unfoldable pub hcs : HdlcFrame → Result (List ℕ)
unfolding hcs_of
hcs f = hcs_of f.frame_class (payload_bytes f.payload) f

unfoldable pub frame_content : HdlcFrame → Result (List ℕ)
unfolding information
frame_content f = do
  header ← header_content f
  header_check ← hcs f
  ok (header ++ (header_check ++ information f))

unfoldable pub fcs : HdlcFrame → Result (List ℕ)
fcs f = do content ← frame_content f; calculate_for content false

unfoldable pub to_bytes : HdlcFrame → Result (List ℕ)
to_bytes f = do
  content ← frame_content f
  frame_check ← fcs f
  ok (hdlc_flag ∷ (content ++ (frame_check ++ (hdlc_flag ∷ []))))

-- ===== src/Examples/Hdlc.antt =====
-- The link layer at the inputs of tests/test_hdlc and tests/test_hdlc_connection.
use dlms_cosem.Prelude.{◌≡◌, refl, false, some, [], ◌∷◌, ok}
use dlms_cosem.Hdlc.Frames.Defs.{
  HdlcFrame, FrameClass, set_normal_response_mode, base_frame, header_content, control_bytes,
  frame_content, hcs, fcs, frame_length,
}
use dlms_cosem.Hdlc.Frames.Defs as Frame
use dlms_cosem.Hdlc.Address.Wire.{client_address, server_address}
use dlms_cosem.Hdlc.Address.Defs.{address_length}
use dlms_cosem.Hdlc.Address.Defs as Address
use dlms_cosem.Hdlc.Fields.FrameFormat
use dlms_cosem.Hdlc.Fields.Snrm
use dlms_cosem.Crc.Defs.{
  calculate_for, calculate_from, crc_step, crc_ccitt_table, reverse_byte, reverse_byte_message,
  output_byte,
}

abbrev snrm : HdlcFrame
snrm = base_frame set_normal_response_mode (server_address 1 (some 17) false) (client_address 16)

snrm_bytes :
    Frame.to_bytes snrm
    ≡ ok (0x7e ∷ 0xa0 ∷ 0x08 ∷ 0x02 ∷ 0x23 ∷ 0x21 ∷ 0x93 ∷ 0xbd ∷ 0x64 ∷ 0x7e ∷ [])
unfolding Frame.to_bytes fcs frame_content header_content hcs frame_length control_bytes
    Address.to_bytes address_length FrameFormat.make FrameFormat.to_bytes Snrm.to_bytes
    calculate_for calculate_from crc_step crc_ccitt_table reverse_byte reverse_byte_message
    output_byte
snrm_bytes = refl

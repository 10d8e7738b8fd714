-- ===== src/Hdlc/Fields.antt =====
-- dlms_cosem/hdlc/fields.py: the control field of each frame class and the frame format field.
pub mod Final
pub mod Snrm
pub mod Ua
pub mod Disconnect
pub mod ReceiveReady
pub mod Information
pub mod UnnumberedInformation
pub mod FrameFormat
pub mod Bits
pub mod RoundTrip

-- ===== src/Hdlc/Frames.antt =====
-- HDLC frames: dlms_cosem/hdlc/frames.py.
pub mod Defs
pub mod Parse
pub mod Shape
pub mod Bytes
pub mod Places
pub mod InformationRoundTrip
pub mod ReceiveReadyRoundTrip
pub mod UnnumberedRoundTrip
pub mod AcknowledgmentRoundTrip

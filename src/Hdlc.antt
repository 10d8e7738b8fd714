-- ===== src/Hdlc.antt =====
-- The HDLC data link: dlms_cosem/hdlc.
pub mod Validators
pub mod Fields
pub mod Address
pub mod Frames
pub mod State
pub mod Connection

-- ===== src/Hdlc/Connection.antt =====
-- The client's end of an HDLC link: dlms_cosem/hdlc/connection.py.
pub mod Defs
pub mod Invariant
pub mod Sending
pub mod Receiving
pub mod Delivery
pub mod Acknowledged
pub mod ShortFrame

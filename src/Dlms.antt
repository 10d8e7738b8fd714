-- ===== src/Dlms.antt =====
-- The client's end of a DLMS association: dlms_cosem/connection.py.
pub mod Apdu
pub mod Connection
pub mod Authentication
pub mod Operations
pub mod Calls
pub mod Counters
pub mod Outstanding
pub mod Handshake
pub mod MeterReply

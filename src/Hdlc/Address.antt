-- ===== src/Hdlc/Address.antt =====
-- HDLC addresses: dlms_cosem/hdlc/address.py.
pub mod Defs
pub mod Parse
pub mod Bits
pub mod Wire
pub mod Find
pub mod RoundTrip

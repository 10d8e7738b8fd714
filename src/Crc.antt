-- ===== src/Crc.antt =====
-- The frame check sequences of HDLC: dlms_cosem/crc.py.
pub mod Defs
pub mod Xor
pub mod Total
pub mod Detect

-- ===== src/Security.antt =====
-- The protection of APDUs: dlms_cosem/security.py.
pub mod Control
pub mod Ciphers
pub mod Ciphering
pub mod Methods

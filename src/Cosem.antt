-- ===== src/Cosem.antt =====
-- COSEM descriptors: dlms_cosem/cosem.
pub mod Interface
pub mod Obis
pub mod Method
pub mod Descriptors
pub mod Selection

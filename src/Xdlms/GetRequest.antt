-- ===== src/Xdlms/GetRequest.antt =====
-- The requests of the GET service: dlms_cosem/protocol/xdlms/get.py.
pub mod Kind
pub mod Defs
pub mod RoundTrip

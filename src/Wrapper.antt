-- ===== src/Wrapper.antt =====
-- The IP wrapper: dlms_cosem/protocol/wrappers.py and TcpTransport of dlms_cosem/io.py.
pub mod Defs
pub mod RoundTrip

-- ===== src/Xdlms.antt =====
-- The xDLMS services: dlms_cosem/protocol/xdlms.
pub mod InvokeId
pub mod Enumerations
pub mod GetResponse
pub mod ExceptionResponse
pub mod Action
pub mod Set
pub mod GetRequest

-- ===== src/Xdlms/Action.antt =====
-- The ACTION service: dlms_cosem/protocol/xdlms/action.py.
pub mod Kind
pub mod Status
pub mod Defs
pub mod RoundTrip

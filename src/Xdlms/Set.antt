-- ===== src/Xdlms/Set.antt =====
-- The SET service: dlms_cosem/protocol/xdlms/set.py.
pub mod RequestKind
pub mod ResponseKind
pub mod Defs
pub mod RoundTrip

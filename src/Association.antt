-- ===== src/Association.antt =====
-- The application association: dlms_cosem/state.py.
pub mod State
pub mod Traces

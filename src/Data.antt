-- ===== src/Data.antt =====
-- DLMS data and its encoding: dlms_cosem/dlms_data.py.
pub mod VariableInteger
pub mod Types
pub mod Conversion
pub mod Parser
pub mod Cursor
pub mod Values
pub mod Entry
pub mod RoundTrip
pub mod Loop

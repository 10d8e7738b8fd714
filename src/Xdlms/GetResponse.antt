-- ===== src/Xdlms/GetResponse.antt =====
-- The responses of the GET service.
pub mod Kind
pub mod Defs
pub mod RoundTrip
pub mod Classes
pub mod Agreement

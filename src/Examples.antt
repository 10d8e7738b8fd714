-- ===== src/Examples.antt =====
-- Runs on concrete inputs, and the theorems at inputs that meet their hypotheses.
pub mod Hdlc
pub mod Link
pub mod Codes
pub mod Frames
pub mod Protection
pub mod Association
pub mod Data
pub mod Services

-- ===== src/Tests.antt =====
-- Runs of the model, and the theorems at concrete inputs.
pub mod Data
mod Sites
mod Requests
mod Bodies
mod Hooks
mod Settings
mod Certificates
mod Services
mod Protocols

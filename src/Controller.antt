-- ===== src/Controller.antt =====
-- backend/app/controller
pub mod Models
pub mod Precedence
pub mod Policy
pub mod Waves
pub mod Queue
pub mod Stages
pub mod Runtime
pub mod Contract
mod Examples

-- ===== src/Autonomy.antt =====
-- backend/app/autonomy: the bounded run behind a background job.
pub mod Models
pub mod Service
pub mod Bounds
pub mod Seeds
mod Examples

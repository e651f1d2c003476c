-- ===== src/Jobs.antt =====
-- backend/app/jobs
pub mod Status
pub mod Store
pub mod Methods
pub mod Documents
pub mod Ops
pub mod Steps
pub mod Effects
pub mod Polls
pub mod Changes
pub mod Progress
pub mod Polling
pub mod Access
pub mod Opening
pub mod Lists
pub mod Repository
pub mod Idempotent
mod Examples

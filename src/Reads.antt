-- ===== src/Reads.antt =====
-- backend/app/tools/read_executor.py and db/read_repository.py: the read tools and the queries that
-- they run.
pub mod Bounds
pub mod Repository
pub mod Joins
pub mod Filters
pub mod Tools
pub mod Ranges
pub mod Isolation
pub mod Offices
mod Examples

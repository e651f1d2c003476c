-- ===== src/Api.antt =====
-- backend/app/api: the routes of the service, over its stores.
pub mod Jobs
pub mod Polls
pub mod Waits
pub mod Lists
pub mod Failures
pub mod Refusals
pub mod Actions
pub mod Requests
pub mod Payloads
pub mod Chat
mod Examples

-- ===== src/Gateway.antt =====
-- backend/app/gateway
pub mod Idempotency
pub mod Exclusion
pub mod Keys
pub mod Bookings
pub mod Booking
mod Examples

-- ===== src/Examples.antt =====
-- Concrete runs of the services: one item, a few reservations, and what the services meet.
pub mod Data
mod Attempts
mod Expiries
mod Consuming
mod Tokens
mod Checkouts
mod Interleaving
mod Waiting
mod Working
mod Starting
mod Serving
mod Ordering
mod Stopping
mod Calls
use flashsale_reservation.Prelude.{ℕ}

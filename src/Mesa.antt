-- ===== src/Mesa.antt =====
-- src/services/bolao: the Mesas (pools) of the game: their terms, schedule, registrations and invites.
pub mod Terms
pub mod Schedule
pub mod Registration
pub mod Prize
pub mod Entry
pub mod Payout
pub mod Settlement
pub mod Integrity
pub mod Baseline

-- ===== src/Benefit.antt =====
-- src/services/benefits/*.service.ts and benefits.config.ts: doubles and super doubles, free in a
-- round or in the inventory of a user.
pub mod Config
pub mod Consume
pub mod Accounting
pub mod Grant
pub mod Purchase
mod Tests

-- ===== src/Concurrency.antt =====
-- internal/concurrency
pub mod Promise
pub mod OneShot
pub mod Semaphore
pub mod Slots

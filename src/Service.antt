-- ===== src/Service.antt =====
-- The parts put together, as the initializer of the program does.
pub mod Call
pub mod Served
pub mod SetGet
pub mod DelGet
pub mod Spec
pub mod Refused
pub mod Reply
pub mod Session
pub mod Started

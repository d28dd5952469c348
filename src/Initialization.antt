-- ===== src/Initialization.antt =====
-- internal/initialization: the program's parts made in their order.
pub mod Start
pub mod Refusal
pub mod Layers

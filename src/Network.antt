-- ===== src/Network.antt =====
-- internal/network, and the set-up of its server in internal/initialization.
pub mod Option
pub mod Server
pub mod Accept
pub mod Shutdown
pub mod Returns
pub mod Asleep
pub mod Defaults
pub mod Connection
pub mod Replies
pub mod Client

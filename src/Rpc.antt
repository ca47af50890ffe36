-- ===== src/Rpc.antt =====
-- helpers/rpc.js: the shared connection with its callbacks, and calls with retries.
pub mod Connection
pub mod Counts
pub mod Callbacks
pub mod Listeners
pub mod Reconnect
pub mod Registered
pub mod Exactly
pub mod Retry

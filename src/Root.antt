-- ===== src/Root.antt =====
-- routes/Root: the frame of every page.
pub mod RpcStatus
pub mod Marks
pub mod Frame
pub mod Routes
pub mod Links

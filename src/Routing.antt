-- ===== src/Routing.antt =====
-- src/OOServer/MessageConnection.cpp: the message handler that routes between channels.
pub mod Table
pub mod Layout
pub mod Handler
pub mod Register
pub mod Env
pub mod Send
pub mod Receive
pub mod Route
pub mod Reach
pub mod Close
pub mod Setup
pub mod Request
pub mod Root
pub mod Wait
pub mod Nested
pub mod Awaited
pub mod Connection
pub mod Frames
pub mod Threads
pub mod Shutdown

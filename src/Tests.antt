-- ===== src/Tests.antt =====
-- The theorems at concrete inputs.
pub mod Assoc
pub mod Handles
mod Formatting
mod Numbers
mod Rot
mod Values
mod Waiting
mod Routing
mod Registry
mod Guid
mod Strings

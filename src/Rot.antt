-- ===== src/Rot.antt =====
-- The running object table of a user's server (src/OOServer/UserROT.cpp and .h).
pub mod Tables
pub mod State
pub mod Notify
pub mod Revoke
pub mod Register
pub mod Get
pub mod Loop
pub mod Consistent
pub mod Revoked
pub mod Inserted
pub mod Kept
pub mod Gone
pub mod Taken
pub mod Found
pub mod Registered
pub mod Regained
pub mod RoundTrip
pub mod Refused
pub mod Steps

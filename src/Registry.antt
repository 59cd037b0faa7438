-- ===== src/Registry.antt =====
-- The registry database: src/OOServer/libdb/RegistryHive.cpp.
pub mod Tables
pub mod Hive
pub mod Values
pub mod Stored
pub mod Find
pub mod Transaction
pub mod Create
pub mod Delete
pub mod Enum
pub mod Rows
pub mod Pruned
pub mod Protected
pub mod Removed
pub mod Finite
pub mod Listed
pub mod Ends
pub mod Sound
pub mod Located
pub mod Grown
pub mod Ended
pub mod Atomic

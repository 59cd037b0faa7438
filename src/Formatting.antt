-- ===== src/Formatting.antt =====
-- The formatting of numbers and of texts with arguments: src/OOCore/Formatting.cpp.
pub mod Decimal
pub mod Braces
pub mod Formatter
pub mod Numbers
pub mod Parts
pub mod Two
pub mod Places
pub mod Merged
pub mod Cuts
pub mod Parsed
pub mod Options
pub mod Colon
pub mod Comma
pub mod Argument
pub mod Rounds
pub mod Written
pub mod Enough
pub mod Copied
pub mod Waiting
pub mod Filled

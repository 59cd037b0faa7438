-- ===== src/Values.antt =====
-- Dynamic values: the conversions of any_t (src/include/Omega/internal/any.inl) and its equality
-- (src/OOCore/Types.cpp).
pub mod Int
pub mod Convert
pub mod Coerce
pub mod Equal
pub mod Exact
pub mod Same

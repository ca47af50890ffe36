-- ===== src/Number.antt =====
-- JavaScript's `Number`: IEEE 754 doubles with their rounding, as the app's arithmetic uses them.
pub mod Defs
pub mod Rounding
pub mod Exact
pub mod Bounds
pub mod Percent
pub mod Parse
pub mod Numerals
pub mod Print

-- ===== src/Policy/Glob.antt =====
-- `glob` of internal/policy/policy.go: a pattern becomes a regular expression.
pub mod Runes
pub mod Pattern
pub mod Atoms
pub mod Language
pub mod Plain

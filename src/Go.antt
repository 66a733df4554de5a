-- ===== src/Go.antt =====
-- What the program uses of Go and its standard library: texts, signed numbers, errors.
pub mod Text
pub mod Int
pub mod Result

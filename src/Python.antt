-- ===== src/Python.antt =====
-- What the source takes from the language: raised exceptions, methods that mutate an object, and
-- the formatting of texts and numbers.
pub mod Text
pub mod Split
pub mod Dict
pub mod Exec

-- ===== src/Library.antt =====
-- What the program uses of code that is not its own, as records of operations and of the documented
-- behaviour that the theorems rely on.
pub mod Json
pub mod Grouping
pub mod Database
pub mod Sorting

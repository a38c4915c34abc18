-- ===== src/Common.antt =====
-- The names that the other modules share: the libraries', passed on, and those of the children.
pub mod Tests
pub mod Numbers
pub mod Result
pub mod Lists
pub mod Maps
pub mod Distinct

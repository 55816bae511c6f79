-- ===== src/Query.antt =====
-- Query rewriting: the packages that narrow the queries of a protected method.
pub mod Criteria
pub mod Mongo
pub mod Shim
pub mod Sql
pub mod Django
mod Tests

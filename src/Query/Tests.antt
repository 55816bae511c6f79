-- ===== src/Query/Tests.antt =====
-- Models of the libraries that the packages call, and the theorems at them.
mod Lookups
mod Mongo
mod Sql
mod Django
mod Shims

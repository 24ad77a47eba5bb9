-- ===== src/Store.antt =====
-- internal/store: the SQLite tables as values. `fault` is what the database reports: `none` where
-- all statements of the operation succeed. A statement that fails changes nothing, and a
-- transaction that fails is rolled back.
pub mod Tables
pub mod Users
pub mod State
pub mod Runs
pub mod Valid
pub mod Opening
pub mod Lock

-- ===== src/Database.antt =====
-- packages/db/src: the tables of the database, and what the repositories do with them.
pub mod Rows
pub mod Table
pub mod Store
pub mod Flow
pub mod Insert

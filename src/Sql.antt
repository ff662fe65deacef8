-- ===== src/Sql.antt =====
-- The SQL scanner of app/core/query_service.py.
pub mod Scan
pub mod Comments
pub mod Literals
pub mod Statements
pub mod Parens
pub mod Words
pub mod Validate
mod Tests

-- ===== src/Query.antt =====
-- The parameters of a query in app/core/query_service.py: which ones a route declares, and what
-- is bound and appended when it runs.
pub mod Binds
pub mod Convert
pub mod Detect
pub mod Execute
pub mod Options
pub mod Order
pub mod Paging
pub mod Parameters
mod Tests

-- ===== src/Execution.antt =====
-- app/core/execution_service.py: the history of executions and the concurrency slots.
pub mod History
pub mod Slots
pub mod Lifecycle
mod Tests

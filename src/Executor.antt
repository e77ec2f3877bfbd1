-- ===== src/Executor.antt =====
-- The execution engine, src/mev/execution/executor.rs.
pub mod Budget
pub mod Pressure
pub mod Guard
pub mod Fees
pub mod Submit
pub mod Observe
pub mod Tests
pub mod Handle

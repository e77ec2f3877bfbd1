-- ===== src/Lookup.antt =====
-- From the mempool to the candidates (src/mev/runtime.rs): the transactions already seen, the budgets of
-- lookups, the lanes and the micro-batches.
pub mod Seen
pub mod Batch
pub mod Budget
pub mod Backpressure
pub mod Gate
mod Tests

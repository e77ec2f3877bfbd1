-- ===== src/Decode.antt =====
-- Calldata decoding (src/mev/runtime.rs): swap routers, the Universal Router and encoded V3 paths.
pub mod V3Path
pub mod Token
pub mod Hints
pub mod Signal
pub mod Universal
pub mod Direct
pub mod Monitored
pub mod Partial
pub mod Swap
pub mod Consistent
mod Tests

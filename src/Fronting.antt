-- ===== src/Fronting.antt =====
-- internal/services/fronting.go: which resource may mint tokens for which other one.
pub mod Cycle
pub mod Rules
pub mod Service
pub mod Walks
pub mod Search
pub mod Exact
pub mod Checked
pub mod Sound
pub mod Kept
mod Tests

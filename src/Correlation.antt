-- ===== src/Correlation.antt =====
-- internal/correlation: detection rules, the engine that turns their matches into incidents, and the
-- actions that it recommends.
pub mod Rules
pub mod Recommend
pub mod Derive
pub mod Evaluate
pub mod Merge
pub mod Engine

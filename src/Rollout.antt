-- ===== src/Rollout.antt =====
-- The canary rollout: internal/rollout/promql.go (Query, Evaluate) and canary.go (Objects, Cluster,
-- Resources, Canary, Step).
pub mod Query
pub mod Evaluate
pub mod Objects
pub mod Cluster
pub mod Resources
pub mod Canary
pub mod Step
mod Tests
mod PauseTests
mod OutageTests

-- ===== src/Controller.antt =====
-- internal/controller: the reconcilers and the events that they watch.
pub mod Tenants
pub mod Events
pub mod Crd
pub mod Serving
pub mod Objects
pub mod Children
pub mod Registration
pub mod Status
pub mod Agents
mod Tests
mod AgentTests
mod OwnedTests
mod EndTests

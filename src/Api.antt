-- ===== src/Api.antt =====
-- internal/api/service.go: the service layer, which puts the components together.
pub mod Target
pub mod Evaluate
pub mod Ingest
mod Tests

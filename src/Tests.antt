-- ===== src/Tests.antt =====
-- Runs on concrete inputs, and the properties applied to them.
pub mod Samples
pub mod Hosts
mod Runners
mod Locals
mod Registries
mod Secrets
mod Indexes
mod Jobs

-- ===== src/Deploy.antt =====
-- Deployment of the plugin: compose/plugin_deploy.py.
mod Tests
mod Answers
mod Attested
mod Readings
pub mod Sample
pub mod Exec
pub mod Ran
pub mod Config
pub mod Process
pub mod State
pub mod Inspect
pub mod Claim
pub mod Keeping
pub mod Release
pub mod Removal
pub mod Frontend
pub mod Stopping
pub mod Boundary
pub mod Writing
pub mod Readiness
pub mod Host
pub mod Running
pub mod Later
pub mod Networks
pub mod Substrate
pub mod Startup
pub mod Working
pub mod Growing
pub mod Install
pub mod Outcome
pub mod Run

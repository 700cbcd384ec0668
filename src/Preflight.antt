-- ===== src/Preflight.antt =====
-- compose/plugin_preflight.py: the checks on one plugin bundle and on its compose target.
pub mod Path
pub mod Utf8
pub mod Records
pub mod Network
pub mod Manifest
pub mod Zip
pub mod Bundle
mod Tests
pub mod Target

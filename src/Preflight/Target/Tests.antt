-- ===== src/Preflight/Target/Tests.antt =====
-- The target of a sample project.

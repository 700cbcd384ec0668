-- ===== src/Corpus.antt =====
-- The corpus diagnostics: compose/corpus_baseline.py and compose/corpus_baseline_triage.py.
mod Tests
pub mod Baseline
pub mod Triage

-- ===== src/SpecValues.antt =====
-- src/matching/spec_value_normalizer.py: canonical forms of extracted spec values.
pub mod Tables
pub mod Normalizers
pub mod Canonical
mod ValueTests

-- ===== src/Validator.antt =====
-- ReportValidator: Scripts/report_validator.py.
pub mod Regex
pub mod Language
pub mod Json
pub mod Node
pub mod Conforms
pub mod Soundness
pub mod Completeness
pub mod Schema
pub mod Report

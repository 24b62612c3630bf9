-- ===== src/Compat.antt =====
-- CompatibilityChecker: Scripts/compatibility_checker.py.
pub mod State
pub mod Cpu
pub mod Gpu
pub mod Devices
pub mod Storage
pub mod Run

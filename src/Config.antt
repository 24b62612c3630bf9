-- ===== src/Config.antt =====
-- ConfigProdigy: Scripts/config_prodigy.py.
pub mod Igpu
pub mod Audio
pub mod Cpu
pub mod BootArgs
pub mod Booter
pub mod Drivers
pub mod Kernel

-- ===== src/Smbios.antt =====
-- SMBIOS: Scripts/smbios.py.
pub mod Select
pub mod Customize

-- ===== src/Tests.antt =====
-- Tests and examples.
mod Sample
mod Compat
mod Validator
mod Smbios
mod Darwin
mod Integrity
mod Customizer
mod Kexts
mod Config

-- ===== src/Kexts.antt =====
-- KextMaestro: Scripts/kext_maestro.py and Scripts/datasets/kext_data.py.
pub mod Info
pub mod Data
pub mod Ask
pub mod Verify
pub mod Select
pub mod Check
pub mod Known
pub mod Closed
pub mod Total
pub mod Closure
pub mod Invariant
pub mod Conflicts
pub mod Required
pub mod Sound
pub mod Load
pub mod Menu

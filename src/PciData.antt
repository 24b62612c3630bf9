-- ===== src/PciData.antt =====
-- The device ID tables of Scripts/datasets/pci_data.py that the checks look devices up in.
pub mod Bluetooth
pub mod Wireless
pub mod Ethernet
pub mod Controllers
pub mod System
pub mod Chromebook

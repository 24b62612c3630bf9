-- ===== src/Compat/Devices/Laws.antt =====
-- What the checks of single device classes promise.
use freaky_ocs.Base.{
  ℕ, String, ◌≡◌, ◌&&◌, ◌||◌, none, some, ◌++◌, arith, elem, starts_with, if◌then◌else◌,
}
use freaky_ocs.Darwin.{le_version}
use freaky_ocs.PciData.Wireless.{wireless_card_ids, wireless_usb_ids}
use freaky_ocs.PciData.Ethernet.{ethernet_ids}
use freaky_ocs.Report.{Device}
use freaky_ocs.Compat.State.{full_range}
use freaky_ocs.Compat.Cpu.Laws.{IsWithin}
use freaky_ocs.Compat.Devices.{
  network_range, broadcom_range, is_patched_wifi, assess_network, oclp_of,
}

broadcom_range-IsWithin : (i : ℕ) → IsWithin (broadcom_range i).0
unfolding le_version full_range
broadcom_range-IsWithin i = ground arith

network_range-IsWithin : (id : String) → IsWithin (network_range id).0
unfolding network_range le_version full_range
network_range-IsWithin id = ground arith

-- For a device without marks, the network check gives a Wi-Fi card of the tables its range, which is
-- not empty and lies within the supported versions, and a range of OpenCore Legacy Patcher exactly
-- if it is one of the cards with root patches. Any other device gets none of the latter; it gets its
-- range if it is an Ethernet controller or a wireless USB adapter of the tables, is marked as
-- unsupported if it is another PCI device, and gets no mark otherwise.
pub assess_network_lem :
    (d : Device)
    → d.compatibility ≡ none
    → d.oclp ≡ none
    → let known = elem d.device_id wireless_card_ids in
      let listed = elem d.device_id (ethernet_ids ++ wireless_usb_ids) in
      IsWithin (network_range d.device_id).0
      × ((assess_network d).compatibility ≡ (
          if known || listed
          then some (some (network_range d.device_id).0)
          else if starts_with d.bus_type "PCI"
          then some none
          else none))
      × ((assess_network d).oclp
          ≡ (if known && is_patched_wifi d.device_id then some (oclp_of d.device_id) else none))
unfolding assess_network
assess_network_lem d fresh fresh' = (network_range-IsWithin d.device_id, ground arith, ground arith)

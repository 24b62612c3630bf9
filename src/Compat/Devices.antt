-- ===== src/Compat/Devices.antt =====
-- The checks of the other device classes: Scripts/compatibility_checker.py.
pub mod Laws
pub mod Patched
pub mod Ranges
use freaky_ocs.Base.{
  index_of, ℕ, zero, suc, String, Bool, true, false, ◌&&◌, ◌||◌, not, Option, none, some, List, [],
  ◌∷◌, ◌++◌, all, elem, take, drop, includes, starts_with, str_eq, ltb, leb, ◌==◌, if◌then◌else◌,
}
use freaky_ocs.Base.Dict.{Dict}
use freaky_ocs.Darwin.{Version, version, get_latest_darwin_version}
use freaky_ocs.PciData.Bluetooth.{atheros_bluetooth_ids, bluetooth_ids}
use freaky_ocs.PciData.Wireless.{
  atheros_wifi_ids, broadcom_wifi_ids, intel_wifi_ids, wireless_card_ids, wireless_usb_ids,
}
use freaky_ocs.PciData.Ethernet.{intel_i22x_ids, aquantia_aqtion_ids, ethernet_ids}
use freaky_ocs.PciData.Controllers.{
  SubsystemIds, one, several, realtek_card_reader_ids, intel_vmd_ids, unsupported_nvme_ssd_ids,
  intel_sst_ids,
}
use freaky_ocs.Codecs.{codec_layout_ids}
use freaky_ocs.Report.{Range, Compatibility, Device, Report}
use freaky_ocs.Compat.State.{
  Outcome, next, exit_program, ◌>>=◌, Checker, range, full_range, merge_ocl_patched,
}
use freaky_ocs.Compat.Gpu.Check.{is_unsupported}

abbrev pub with_compatibility : Compatibility → Device → Device
with_compatibility c d = record d { compatibility = some c }

-- A loop that gives each device its range.
unfoldable pub mark_devices : (Device → Compatibility) → Dict Device → Dict Device
mark_devices f [] = []
mark_devices f ((name, d) ∷ ds) = (name, with_compatibility (f d) d) ∷ mark_devices f ds

abbrev pub upto : Version → Compatibility
upto v = some (range v full_range.min)

unfoldable pub sound_compatibility : Device → Compatibility
sound_compatibility d =
    if includes d.bus_type "USB"
      || starts_with d.device_id "1002"
      || (starts_with d.device_id "8086" && not (elem d.device_id intel_sst_ids))
      || elem d.device_id codec_layout_ids
    then some full_range
    else none

unfoldable pub check_sound_compatibility : Checker → Outcome Checker
check_sound_compatibility s = next (record s {
  report = record s.report { sound = mark_devices sound_compatibility s.report.sound };
})

unfoldable pub check_biometric_compatibility : Checker → Outcome Checker
check_biometric_compatibility s = next (record s {
  report = record s.report { biometric = mark_devices (λ _. none) s.report.biometric };
})

-- A Broadcom card by its place in the table: its native range, and ocl_patched_min_version.
abbrev pub broadcom_range : ℕ → Range × Version
broadcom_range i =
    if i == 13 || (ltb 17 i && ltb i 21)
    then (range (version 22 99 99) full_range.min, version 23 0 0)
    else if ltb i 12
    then (range (version 17 99 99) full_range.min, version 20 0 0)
    else (full_range, version 20 0 0)

-- (max_version, min_version) and ocl_patched_min_version by the device ID.
unfoldable pub network_range : String → Range × Version
network_range id = elim (index_of id broadcom_wifi_ids) [
  | some i ↦ broadcom_range i
  | none ↦ (
    (if elem id (take 8 atheros_wifi_ids)
        then range (version 17 99 99) full_range.min
        else if elem id (drop 8 atheros_wifi_ids)
        then range (version 20 99 99) full_range.min
        else if elem id intel_i22x_ids
        then range full_range.max (version 19 0 0)
        else if elem id aquantia_aqtion_ids
        then range full_range.max (version 21 0 0)
        else full_range),
    version 20 0 0,
  )
]

-- The Wi-Fi cards that get root patches.
unfoldable pub is_patched_wifi : String → Bool
is_patched_wifi id = not (elem id intel_wifi_ids) && not (elem id (drop 8 atheros_wifi_ids))

abbrev pub oclp_of : String → Range
oclp_of id = range (get_latest_darwin_version false) (network_range id).1

-- The keys that one device gets.
unfoldable pub assess_network : Device → Device
assess_network d =
    if elem d.device_id wireless_card_ids
    then record d {
      compatibility = some (some (network_range d.device_id).0);
      oclp = if is_patched_wifi d.device_id then some (oclp_of d.device_id) else d.oclp;
    }
    else if elem d.device_id (ethernet_ids ++ wireless_usb_ids)
    then record d { compatibility = some (some (network_range d.device_id).0) }
    else elim d.compatibility [
      | some c ↦ d
      | none ↦ if starts_with d.bus_type "PCI" then with_compatibility none d else d
    ]

-- What one device adds to ocl_patched_macos_version.
unfoldable pub network_ocl : Option Range → Device → Option Range
network_ocl old d =
    if elem d.device_id wireless_card_ids && is_patched_wifi d.device_id
    then some (merge_ocl_patched old (oclp_of d.device_id))
    else old

unfoldable pub network_loop : Dict Device → Option Range → Dict Device × Option Range
network_loop [] ocl = ([], ocl)
network_loop ((name, d) ∷ ds) ocl =
    let (ds', ocl') = network_loop ds (network_ocl ocl d) in ((name, assess_network d) ∷ ds', ocl')

unfoldable pub check_network_compatibility : Checker → Outcome Checker
check_network_compatibility s =
    let (ds, ocl) = network_loop s.report.network s.ocl_patched in
    next (record s { report = record s.report { network = ds }; ocl_patched = ocl })

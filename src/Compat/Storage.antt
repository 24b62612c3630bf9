-- ===== src/Compat/Storage.antt =====
-- The checks of storage, Bluetooth and card readers: Scripts/compatibility_checker.py.
pub mod Laws
use freaky_ocs.Base.{
  String, Bool, false, ◌&&◌, ◌||◌, not, none, some, List, [], ◌∷◌, all, elem, take, includes,
  str_eq, if◌then◌else◌,
}
use freaky_ocs.Base.Dict.{Dict}
use freaky_ocs.Darwin.{version}
use freaky_ocs.PciData.Bluetooth.{atheros_bluetooth_ids, bluetooth_ids}
use freaky_ocs.PciData.Controllers.{
  SubsystemIds, one, several, realtek_card_reader_ids, intel_vmd_ids, unsupported_nvme_ssd_ids,
}
use freaky_ocs.Report.{Compatibility, Device}
use freaky_ocs.Compat.State.{Outcome, next, exit_program, ◌>>=◌, Checker, range, full_range}
use freaky_ocs.Compat.Devices.{mark_devices}
use freaky_ocs.Compat.Gpu.Check.{is_unsupported}

-- `subsystem_id in device[1]`: a part of the text, or a member of the tuple.
unfoldable pub among : String → SubsystemIds → Bool
among id (one s) = includes s id
among id (several ids) = elem id ids

unfoldable pub is_unsupported_nvme : String → String → List (String × SubsystemIds) → Bool
is_unsupported_nvme id subsystem [] = false
is_unsupported_nvme id subsystem ((device, subsystems) ∷ rest) =
    str_eq device id && among subsystem subsystems || is_unsupported_nvme id subsystem rest

-- `controller_props.get("Subsystem ID", "0"*8)`
abbrev pub subsystem_of : Device → String
subsystem_of d = elim d.subsystem_id [ none ↦ "00000000" | some s ↦ s ]

unfoldable pub nvme_compatibility : Device → Compatibility
nvme_compatibility d =
    if is_unsupported_nvme d.device_id (subsystem_of d) unsupported_nvme_ssd_ids
    then none
    else some full_range

-- The loop over the controllers; an Intel VMD controller ends the program.
unfoldable pub storage_loop : Dict Device → Outcome (Dict Device)
storage_loop [] = next []
storage_loop ((name, d) ∷ ds) =
    let rest = storage_loop ds in
    if not (str_eq d.bus_type "PCI")
    then (rest >>= λ ds'. next ((name, d) ∷ ds'))
    else if elem d.device_id intel_vmd_ids
    then exit_program
    else (rest >>= λ ds'.
        next ((name, record d { compatibility = some (nvme_compatibility d) }) ∷ ds'))

unfoldable pub finish_storage : Checker → Dict Device → Outcome Checker
finish_storage s ds =
    if all (λ (_, d). is_unsupported d) ds
    then exit_program
    else next (record s { report = record s.report { storage = ds } })

unfoldable pub check_storage_compatibility : Checker → Outcome Checker
check_storage_compatibility s = elim s.report.storage [
  | [] ↦ exit_program
  | d ∷ ds ↦ storage_loop (d ∷ ds) >>= finish_storage s
]

unfoldable pub bluetooth_compatibility : Device → Compatibility
bluetooth_compatibility d =
    if elem d.device_id atheros_bluetooth_ids
    then some (range (version 20 99 99) full_range.min)
    else if elem d.device_id bluetooth_ids
    then some full_range
    else none

unfoldable pub check_bluetooth_compatibility : Checker → Outcome Checker
check_bluetooth_compatibility s = next (record s {
  report = record s.report { bluetooth = mark_devices bluetooth_compatibility s.report.bluetooth };
})

unfoldable pub sd_compatibility : Device → Compatibility
sd_compatibility d =
    if elem d.device_id realtek_card_reader_ids
    then some (
        range
          (if elem d.device_id (take 5 realtek_card_reader_ids)
            then version 23 99 99
            else full_range.max)
          full_range.min)
    else none

unfoldable pub check_sd_controller_compatibility : Checker → Outcome Checker
check_sd_controller_compatibility s = next (record s {
  report = record s.report { sd_controller = mark_devices sd_compatibility s.report.sd_controller };
})

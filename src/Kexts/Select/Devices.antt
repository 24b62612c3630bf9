-- ===== src/Kexts/Select/Devices.antt =====
-- The kexts for the input devices and the controllers: `select_required_kexts` in
-- Scripts/kext_maestro.py.
use freaky_ocs.Base.{
  ℕ, String, Bool, false, not, ◌&&◌, ◌||◌, Option, none, some, List, [], ◌∷◌, ◌++◌, drop, elem,
  includes, index_of, starts_with, ltb, str_eq, if◌then◌else◌,
}
use freaky_ocs.Base.Dict.{Dict}
use freaky_ocs.Darwin.{Version, version, le_version}
use freaky_ocs.Report.{Device, Report}
use freaky_ocs.PciData.System.{input_ids, yoga_hids}
use freaky_ocs.PciData.Controllers.{
  SubsystemIds, one, several, realtek_card_reader_ids, unsupported_sata_controller_ids,
  unsupported_usb_controller_ids,
}
use freaky_ocs.Kexts.Select.System.{when, is_laptop_board}

-- `"..." in device_props.get("Device Type", "None")`
abbrev has_type : Device → String → Bool
has_type d t = elim d.device_type [ none ↦ includes "None" t | some u ↦ includes u t ]

-- `if idx and low < idx < high`; an index of 0 counts as none.
abbrev between : ℕ → ℕ → Option ℕ → Bool
between low high none = false
between low high (some i) = ltb 0 i && ltb low i && ltb i high

-- `if idx: if idx < 76: ... elif 78 < idx: ...`
abbrev pub i2c_kexts : Option ℕ → List String
i2c_kexts none = []
i2c_kexts (some i) =
    if ltb 0 i && ltb i 76 then "AlpsHID" ∷ [] else if ltb 78 i then "VoodooRMI" ∷ [] else []

-- A round of the loop over the input devices, for a device with a name.
unfoldable pub input_device_kexts : Device → String → List String
input_device_kexts d device =
    let index = index_of device input_ids in
    when (has_type d "PS/2") (
      "VoodooPS2Controller"
      ∷ (if starts_with device "SYN"
          then "VoodooRMI" ∷ []
          else when (between 75 79 index) ("VoodooSMBus" ∷ [])))
    ++ when (has_type d "I2C") ("VoodooI2CHID" ∷ i2c_kexts index)

unfoldable pub input_kexts_for : Dict Device → List String
input_kexts_for [] = []
input_kexts_for ((_, d) ∷ ds) = elim d.device [
  | none ↦ input_kexts_for ds
  | some device ↦
      (if str_eq device "" then [] else input_device_kexts d device) ++ input_kexts_for ds
]

unfoldable pub laptop_kexts : Report → List String
laptop_kexts r =
    if not (is_laptop_board r)
    then []
    else if includes r.motherboard_name "SURFACE"
    then "BigSurface" ∷ []
    else when (includes r.motherboard_name "ASUS") ("AsusSMC" ∷ [])
      ++ ("BrightnessKeys" ∷ input_kexts_for r.input)

unfoldable pub system_device_kexts : Dict Device → List String
system_device_kexts [] = []
system_device_kexts ((_, d) ∷ ds) =
    when (str_eq d.bus_type "ACPI" && (elim d.device [ none ↦ false | some x ↦ elem x yoga_hids ]))
      ("YogaSMC" ∷ [])
    ++ system_device_kexts ds

unfoldable pub card_reader_kexts_for : Dict Device → List String
card_reader_kexts_for [] = []
card_reader_kexts_for ((_, d) ∷ ds) =
    when (elem d.device_id realtek_card_reader_ids) (
      if elem d.device_id (drop 5 realtek_card_reader_ids)
      then "Sinetek-rtsx" ∷ []
      else "RealtekCardReader" ∷ [])
    ++ card_reader_kexts_for ds

unfoldable pub storage_controller_kexts : Report → Version → String → Device → List String
storage_controller_kexts r macos name d =
    if includes name "NVMe" || includes name "NVM Express"
    then "NVMeFix" ∷ []
    else if not (includes name "AHCI") || includes r.cpu.manufacturer "AMD"
    then (if le_version (version 20 0 0) macos
        then when (elem d.device_id unsupported_sata_controller_ids) ("CtlnaAHCIPort" ∷ [])
        else when (elem d.device_id (drop 15 unsupported_sata_controller_ids))
            ("SATA-unsupported" ∷ []))
    else []

unfoldable pub storage_kexts_for : Report → Version → Dict Device → List String
storage_kexts_for r macos [] = []
storage_kexts_for r macos ((name, d) ∷ ds) =
    storage_controller_kexts r macos name d ++ storage_kexts_for r macos ds

-- `next((controller for controller in UnsupportedUSBControllerIDs if ...), None)`
find_controller : String → List (String × SubsystemIds) → Option SubsystemIds
find_controller device_id [] = none
find_controller device_id ((id, ids) ∷ rest) =
    if str_eq device_id id then some ids else find_controller device_id rest

-- `len(subsystem_ids) > 0 and subsystem_id not in subsystem_ids`; a text is searched for the ID.
abbrev is_other_subsystem : SubsystemIds → String → Bool
is_other_subsystem (one text) id = not (str_eq text "") && not (includes text id)
is_other_subsystem (several []) id = false
is_other_subsystem (several (t ∷ ts)) id = not (elem id (t ∷ ts))

unfoldable pub usb_controller_kexts : Report → Device → List String
unfolding find_controller
usb_controller_kexts r d = elim (find_controller d.device_id unsupported_usb_controller_ids) [
  | none ↦ []
  | some ids ↦
      if is_other_subsystem ids (elim d.subsystem_id [ none ↦ "00000000" | some id ↦ id ])
      then []
      else if starts_with d.device_id "1022"
      then when (is_laptop_board r) ("GenericUSBXHCI" ∷ [])
      else "XHCI-unsupported" ∷ []
]

unfoldable pub usb_kexts_for : Report → Dict Device → List String
usb_kexts_for r [] = []
usb_kexts_for r ((_, d) ∷ ds) = usb_controller_kexts r d ++ usb_kexts_for r ds

-- ===== src/Validator/Schema.antt =====
-- PATTERNS and SCHEMA of the validator: Scripts/report_validator.py.
use freaky_ocs.Base.{Bool, true, false, none, some, [], ◌∷◌}
use freaky_ocs.Validator.Regex.{Regex, cls, ◌∙∙◌, plus, optional, four, one_char, lit, one_of}
use freaky_ocs.Validator.Json.{
  dict, text, list, Rule, rule, Rules, no_rules, entry, absent, present,
}

-- Character sets. `\d` is taken for ASCII digits; Python's also has those of other scripts.
abbrev digit : Regex
digit = cls ((b'0', b'9') ∷ [])

abbrev upper_hex : Regex
upper_hex = cls ((b'0', b'9') ∷ (b'A', b'F') ∷ [])

abbrev hex : Regex
hex = cls ((b'0', b'9') ∷ (b'a', b'f') ∷ (b'A', b'F') ∷ [])

abbrev acpi_char : Regex
acpi_char = cls ((b'A', b'Z') ∷ (b'0', b'9') ∷ (b'_', b'_') ∷ [])

-- The table PATTERNS; "not_empty" is `not_empty` of Regex.
unfoldable pub platform : Regex
platform = one_of ("Desktop" ∷ "Laptop" ∷ [])

unfoldable pub firmware_type : Regex
firmware_type = one_of ("UEFI" ∷ "BIOS" ∷ [])

unfoldable pub bus_type : Regex
bus_type = one_of ("PCI" ∷ "USB" ∷ "ACPI" ∷ "ROOT" ∷ [])

unfoldable pub cpu_manufacturer : Regex
cpu_manufacturer = one_of ("Intel" ∷ "AMD" ∷ [])

unfoldable pub gpu_manufacturer : Regex
gpu_manufacturer = one_of ("Intel" ∷ "AMD" ∷ "NVIDIA" ∷ [])

unfoldable pub gpu_device_type : Regex
gpu_device_type = one_of ("Integrated GPU" ∷ "Discrete GPU" ∷ "Unknown" ∷ [])

unfoldable pub hex_id : Regex
hex_id = optional (lit "0x") ∙∙ plus hex

unfoldable pub device_id : Regex
device_id = four upper_hex ∙∙ optional (one_char b'-' ∙∙ four upper_hex)

unfoldable pub resolution : Regex
resolution = plus digit ∙∙ (one_char b'x' ∙∙ plus digit)

unfoldable pub pci_path : Regex
pci_path =
    lit "PciRoot(0x"
    ∙∙ (plus hex
        ∙∙ (one_char b')'
            ∙∙ plus (lit "/Pci(0x" ∙∙ (plus hex ∙∙ (lit ",0x" ∙∙ (plus hex ∙∙ one_char b')'))))))

unfoldable pub acpi_path : Regex
acpi_path = optional (one_char 92) ∙∙ (lit "_SB" ∙∙ plus (one_char b'.' ∙∙ plus acpi_char))

unfoldable pub core_count : Regex
core_count = plus digit

unfoldable pub connector_type : Regex
connector_type =
    one_of ("VGA" ∷ "DVI" ∷ "HDMI" ∷ "LVDS" ∷ "DP" ∷ "eDP" ∷ "Internal" ∷ "Uninitialized" ∷ [])

unfoldable pub enabled_disabled : Regex
enabled_disabled = one_of ("Enabled" ∷ "Disabled" ∷ [])

-- {"type": str}, with a pattern, and with "required": False.
abbrev plain : Rule
plain = rule (some text) none true no_rules absent absent

abbrev like : Regex → Rule
like p = rule (some text) (some p) true no_rules absent absent

abbrev maybe : Rule
maybe = rule (some text) none false no_rules absent absent

abbrev maybe_like : Regex → Rule
maybe_like p = rule (some text) (some p) false no_rules absent absent

-- A list of texts that may be missing.
abbrev maybe_texts : Rule
maybe_texts = rule (some list) none false no_rules absent (present plain)

-- A section with a schema, and one whose values have it.
abbrev section : Bool → Rules → Rule
section needed rs = rule (some dict) none needed rs absent absent

abbrev devices : Bool → Rules → Rule
devices needed rs =
    rule (some dict) none needed no_rules (present (rule (some dict) none true rs absent absent))
      absent

unfoldable pub motherboard_rule : Rule
unfolding platform
motherboard_rule =
    section true
      (entry "Name" plain (entry "Chipset" plain (entry "Platform" (like platform) no_rules)))

unfoldable pub bios_rule : Rule
unfolding firmware_type enabled_disabled
bios_rule = section true (
    entry "Version" maybe (
      entry "Release Date" maybe (
        entry "System Type" maybe (
          entry "Firmware Type" (like firmware_type)
            (entry "Secure Boot" (like enabled_disabled) no_rules)))))

unfoldable pub cpu_rule : Rule
unfolding cpu_manufacturer core_count
cpu_rule = section true (
    entry "Manufacturer" (like cpu_manufacturer) (
      entry "Processor Name" plain (
        entry "Codename" plain (
          entry "Core Count" (like core_count)
            (entry "CPU Count" (like core_count) (entry "SIMD Features" plain no_rules))))))

unfoldable pub gpu_rule : Rule
unfolding gpu_manufacturer device_id gpu_device_type hex_id pci_path acpi_path enabled_disabled
gpu_rule = devices true (
    entry "Manufacturer" (like gpu_manufacturer) (
      entry "Codename" plain (
        entry "Device ID" (like device_id) (
          entry "Device Type" (like gpu_device_type) (
            entry "Subsystem ID" (maybe_like hex_id) (
              entry "PCI Path" (maybe_like pci_path) (
                entry "ACPI Path" (maybe_like acpi_path)
                  (entry "Resizable BAR" (maybe_like enabled_disabled) no_rules))))))))

unfoldable pub monitor_rule : Rule
unfolding connector_type resolution
monitor_rule = devices false (
    entry "Connector Type" (like connector_type)
      (entry "Resolution" (like resolution) (entry "Connected GPU" maybe no_rules)))

-- "Network", "USB Controllers" and "SD Controller" ask for the same keys.
unfoldable pub controller_keys : Rules
unfolding bus_type device_id hex_id pci_path acpi_path
controller_keys = entry "Bus Type" (like bus_type) (
    entry "Device ID" (like device_id) (
      entry "Subsystem ID" (maybe_like hex_id) (
        entry "PCI Path" (maybe_like pci_path)
          (entry "ACPI Path" (maybe_like acpi_path) no_rules))))

unfoldable pub network_rule : Rule
network_rule = devices true controller_keys

unfoldable pub sound_rule : Rule
sound_rule = devices false (
    entry "Bus Type" plain (
      entry "Device ID" (like device_id) (
        entry "Subsystem ID" (maybe_like hex_id) (
          entry "Audio Endpoints" maybe_texts
            (entry "Controller Device ID" (maybe_like device_id) no_rules)))))

unfoldable pub usb_controllers_rule : Rule
usb_controllers_rule = devices true controller_keys

unfoldable pub input_rule : Rule
input_rule = devices true (
    entry "Bus Type" (like bus_type) (
      entry "Device" maybe
        (entry "Device ID" (maybe_like device_id) (entry "Device Type" maybe no_rules))))

unfoldable pub storage_controllers_rule : Rule
storage_controllers_rule = devices true (
    entry "Bus Type" (like bus_type) (
      entry "Device ID" (like device_id) (
        entry "Subsystem ID" (maybe_like hex_id) (
          entry "PCI Path" (maybe_like pci_path) (
            entry "ACPI Path" (maybe_like acpi_path) (entry "Disk Drives" maybe_texts no_rules))))))

unfoldable pub biometric_rule : Rule
biometric_rule = devices false (
    entry "Bus Type" (like bus_type)
      (entry "Device" maybe (entry "Device ID" (maybe_like device_id) no_rules)))

unfoldable pub bluetooth_rule : Rule
bluetooth_rule =
    devices false (entry "Bus Type" (like bus_type) (entry "Device ID" (like device_id) no_rules))

unfoldable pub sd_controller_rule : Rule
sd_controller_rule = devices false controller_keys

unfoldable pub system_devices_rule : Rule
system_devices_rule = devices false (
    entry "Bus Type" plain (
      entry "Device" maybe (
        entry "Device ID" (maybe_like device_id) (
          entry "Subsystem ID" (maybe_like hex_id) (
            entry "PCI Path" (maybe_like pci_path)
              (entry "ACPI Path" (maybe_like acpi_path) no_rules))))))

-- SCHEMA
unfoldable pub schema : Rule
schema = section true (
    entry "Motherboard" motherboard_rule (
      entry "BIOS" bios_rule (
        entry "CPU" cpu_rule (
          entry "GPU" gpu_rule (
            entry "Monitor" monitor_rule (
              entry "Network" network_rule (
                entry "Sound" sound_rule (
                  entry "USB Controllers" usb_controllers_rule (
                    entry "Input" input_rule (
                      entry "Storage Controllers" storage_controllers_rule (
                        entry "Biometric" biometric_rule (
                          entry "Bluetooth" bluetooth_rule (
                            entry "SD Controller" sd_controller_rule
                              (entry "System Devices" system_devices_rule no_rules))))))))))))))

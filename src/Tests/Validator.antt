-- ===== src/Tests/Validator.antt =====
-- The theorems on the validator at a concrete report.
use freaky_ocs.Base.{String, ◌≡◌, true, some, [], ◌∷◌, refl}
use freaky_ocs.Validator.Json.{
  Value, str, arr, obj, num, Fields, end, field, rule, text, dict, Rule, no_rules, absent, entry,
  nil,
}
use freaky_ocs.Validator.Node.{validate_node, validated, key, NodePath}
use freaky_ocs.Validator.Conforms.{conforms}
use freaky_ocs.Validator.Soundness.{validate_node-conforms}
use freaky_ocs.Validator.Completeness.{validate_node-accepts, validate_node_idem}
use freaky_ocs.Validator.Schema.{schema, bios_rule, enabled_disabled}
use freaky_ocs.Validator.Regex.{matches}
use freaky_ocs.Validator.Report.{
  content, validate_report, validate_report_valid, validate_report_accepts,
}

abbrev entry_of : String → String → Fields → Fields
entry_of k v fs = field k (str v) fs

abbrev empty_section : String → Fields → Fields
empty_section k fs = field k (obj end) fs

abbrev bios : Fields
bios = entry_of "Firmware Type" "UEFI" (entry_of "Secure Boot" "Disabled" end)

abbrev cpu : Fields
cpu = entry_of "Manufacturer" "Intel" (
    entry_of "Processor Name" "Core i7" (
      entry_of "Codename" "Coffee Lake" (
        entry_of "Core Count" "6"
          (entry_of "CPU Count" "1" (entry_of "SIMD Features" "SSE4.2" end)))))

abbrev motherboard : Fields
motherboard =
    entry_of "Name" "Board" (entry_of "Chipset" "HM370" (entry_of "Platform" "Laptop" end))

-- A report that conforms to the schema.
abbrev report_json : Value
report_json = obj (
    field "Motherboard" (obj motherboard) (
      field "BIOS" (obj bios) (
        field "CPU" (obj cpu) (
          empty_section "GPU" (
            empty_section "Network" (
              empty_section "USB Controllers"
                (empty_section "Input" (empty_section "Storage Controllers" end))))))))

abbrev root : NodePath
root = key "Root" ∷ []

validate_node-conforms_example : conforms (obj bios) bios_rule ≡ true
unfolding validate_node bios_rule freaky_ocs.Validator.Json.type_ok
    freaky_ocs.Validator.Node.rule_for freaky_ocs.Validator.Node.text_ok
    freaky_ocs.Validator.Regex.matches freaky_ocs.Validator.Node.missing
    freaky_ocs.Validator.Json.has_key
validate_node-conforms_example =
    validate_node-conforms (obj (field "Extra" (num "1") bios)) bios_rule root (obj bios) refl refl

validate_node-accepts_example :
    validate_node (obj bios) bios_rule root ≡ validated (some (obj bios)) [] []
unfolding conforms bios_rule freaky_ocs.Validator.Json.type_ok freaky_ocs.Validator.Node.rule_for
    freaky_ocs.Validator.Node.text_ok freaky_ocs.Validator.Regex.matches
    freaky_ocs.Validator.Conforms.has_required freaky_ocs.Validator.Json.has_key
validate_node-accepts_example = validate_node-accepts (obj bios) bios_rule root refl

validate_node_idem_example :
    validate_node (obj bios) bios_rule root ≡ validated (some (obj bios)) [] []
unfolding validate_node bios_rule freaky_ocs.Validator.Json.type_ok
    freaky_ocs.Validator.Node.rule_for freaky_ocs.Validator.Node.text_ok
    freaky_ocs.Validator.Regex.matches freaky_ocs.Validator.Node.missing
    freaky_ocs.Validator.Json.has_key
validate_node_idem_example =
    validate_node_idem (obj (field "Extra" (num "1") bios)) bios_rule root root (obj bios) refl refl

validate_report_valid_example :
    (v : Value) × (c : Value) × (content report_json ≡ content v)
    × ((validate_report (content report_json)).errors ≡ [])
    × ((validate_report (content report_json)).cleaned_data ≡ some c)
    × (conforms c schema ≡ true)
unfolding validate_report schema validate_node bios_rule freaky_ocs.Validator.Json.type_ok
    freaky_ocs.Validator.Node.rule_for freaky_ocs.Validator.Node.text_ok
    freaky_ocs.Validator.Regex.matches freaky_ocs.Validator.Node.missing
    freaky_ocs.Validator.Json.has_key freaky_ocs.Validator.Regex.not_empty
    freaky_ocs.Validator.Schema.motherboard_rule freaky_ocs.Validator.Schema.cpu_rule
    freaky_ocs.Validator.Schema.gpu_rule freaky_ocs.Validator.Schema.monitor_rule
    freaky_ocs.Validator.Schema.network_rule freaky_ocs.Validator.Schema.sound_rule
    freaky_ocs.Validator.Schema.usb_controllers_rule freaky_ocs.Validator.Schema.input_rule
    freaky_ocs.Validator.Schema.storage_controllers_rule freaky_ocs.Validator.Schema.biometric_rule
    freaky_ocs.Validator.Schema.bluetooth_rule freaky_ocs.Validator.Schema.sd_controller_rule
    freaky_ocs.Validator.Schema.system_devices_rule
validate_report_valid_example = validate_report_valid (content report_json) refl

validate_report_accepts_example :
    validate_report (content report_json)
    ≡ record { is_valid = true; errors = []; warnings = []; cleaned_data = some report_json }
unfolding conforms schema bios_rule freaky_ocs.Validator.Json.type_ok
    freaky_ocs.Validator.Node.rule_for freaky_ocs.Validator.Node.text_ok
    freaky_ocs.Validator.Regex.matches freaky_ocs.Validator.Conforms.has_required
    freaky_ocs.Validator.Json.has_key freaky_ocs.Validator.Regex.not_empty
    freaky_ocs.Validator.Schema.motherboard_rule freaky_ocs.Validator.Schema.cpu_rule
    freaky_ocs.Validator.Schema.gpu_rule freaky_ocs.Validator.Schema.monitor_rule
    freaky_ocs.Validator.Schema.network_rule freaky_ocs.Validator.Schema.sound_rule
    freaky_ocs.Validator.Schema.usb_controllers_rule freaky_ocs.Validator.Schema.input_rule
    freaky_ocs.Validator.Schema.storage_controllers_rule freaky_ocs.Validator.Schema.biometric_rule
    freaky_ocs.Validator.Schema.bluetooth_rule freaky_ocs.Validator.Schema.sd_controller_rule
    freaky_ocs.Validator.Schema.system_devices_rule
validate_report_accepts_example = validate_report_accepts report_json refl

-- ===== src/Config/Cpu.antt =====
-- The values of config.plist by the processor: Scripts/config_prodigy.py.
use freaky_ocs.Base.{
  ℕ, String, Bool, not, ◌&&◌, ◌||◌, Option, none, some, List, [], ◌∷◌, any, take, elem, includes,
  if◌then◌else◌,
}
use freaky_ocs.Base.Dict.{Dict, get}
use freaky_ocs.Darwin.{Version, version, lt_version, le_version}
use freaky_ocs.CpuData.{intel_cpu_generations}
use freaky_ocs.Kexts.Select.System.{is_intel_hedt_cpu}
use freaky_ocs.MacModels.{get_mac_device_by_name}

unfoldable pub cpuids : Dict String
cpuids =
    ("Ivy Bridge", "A9060300")
    ∷ ("Haswell", "C3060300")
    ∷ ("Broadwell", "D4060300")
    ∷ ("Coffee Lake", "EB060800")
    ∷ ("Comet Lake", "55060A00")
    ∷ ("Ice Lake", "E5060700")
    ∷ []

unfoldable pub is_low_end_intel_cpu : String → Bool
is_low_end_intel_cpu processor_name =
    any (λ cpu_branding. includes processor_name cpu_branding) ("Celeron" ∷ "Pentium" ∷ [])

unfoldable pub is_low_end_haswell_plus : String → String → Bool
is_low_end_haswell_plus processor_name cpu_codename =
    is_low_end_intel_cpu processor_name && elem cpu_codename (take 39 intel_cpu_generations)

unfoldable pub spoof_cpuid : String → String → Version → Option String
spoof_cpuid processor_name cpu_codename macos =
    if is_low_end_haswell_plus processor_name cpu_codename
    then get "Ivy Bridge" cpuids
    else if includes cpu_codename "Haswell" && is_intel_hedt_cpu processor_name cpu_codename
    then get "Haswell" cpuids
    else if includes cpu_codename "Broadwell" && is_intel_hedt_cpu processor_name cpu_codename
    then get "Broadwell" cpuids
    else if includes cpu_codename "Tiger Lake"
    then get "Ice Lake" cpuids
    else if not (includes cpu_codename "Ice Lake")
        && elem cpu_codename (take 34 intel_cpu_generations)
    then if not (includes cpu_codename "Comet Lake")
      then get "Comet Lake" cpuids
      else if lt_version macos (version 19 0 0)
      then get "Coffee Lake" cpuids
      else none
    else none

unfoldable pub csr_active_config : Version → String
csr_active_config macos =
    if le_version (version 20 0 0) macos
    then "030A0000"
    else if le_version (version 18 0 0) macos
    then "FF070000"
    else "FF030000"

-- An address of the MMIO whitelist.
unfoldable pub mmio_whitelist : String → List ℕ
mmio_whitelist motherboard_chipset =
    if includes motherboard_chipset "Ice Lake"
    then 4284481536 ∷ []
    else if includes motherboard_chipset "B650" || includes motherboard_chipset "X670"
    then 4244635648 ∷ []
    else []

-- Whether add_booter_patch adds its patch; `none` is the AttributeError of an unknown model.
unfoldable pub add_booter_patch : String → Version → Option Bool
add_booter_patch smbios_model macos = elim (get_mac_device_by_name smbios_model) [
  | none ↦ none
  | some d ↦
      some (not (le_version d.initial_support macos && le_version macos d.last_supported_version))
]

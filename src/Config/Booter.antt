-- ===== src/Config/Booter.antt =====
-- The quirks of the Booter section, in `genarate` of Scripts/config_prodigy.py.
pub mod Laws
use freaky_ocs.Base.{
  ℕ, String, Bool, true, false, not, ◌&&◌, ◌||◌, Option, none, some, List, [], ◌∷◌, take, drop,
  elem, includes, get_elem?, str_eq, if◌then◌else◌,
}
use freaky_ocs.Base.Dict.{Dict, get}
use freaky_ocs.Darwin.{Version, version, lt_version}
use freaky_ocs.CpuData.{intel_cpu_generations}
use freaky_ocs.Chipsets.{intel_chipsets, amd_chipsets}
use freaky_ocs.PciData.Chromebook.{Subsystems, one, several, chromebook_ids}
use freaky_ocs.Report.{Device, Report, version_eq, listed_system_devices}
use freaky_ocs.Config.Cpu.{mmio_whitelist}
use freaky_ocs.Config.BootArgs.{no_resizable_bar}

-- ResizeAppleGpuBars, 0 or -1, is the Boolean of whether it is 0.
pub record BooterQuirks : Type 0 where
  pub avoid_runtime_defrag : Bool
  pub devirtualise_mmio : Bool
  pub enable_safe_mode_slide : Bool
  pub enable_write_unprotector : Bool
  pub protect_memory_regions : Bool
  pub fixup_apple_efi_images : Bool
  pub protect_uefi_services : Bool
  pub provide_custom_slide : Bool
  pub rebuild_apple_memory_map : Bool
  pub resize_apple_gpu_bars : Bool
  pub setup_virtual_map : Bool
  pub sync_runtime_permissions : Bool

-- `xs[a:b]`, `xs[a:]` and `x == xs[i]` on the tables of chipsets.
unfoldable pub in_slice : String → ℕ → ℕ → Bool
in_slice chipset first end = elem chipset (drop first (take end intel_chipsets))

unfoldable pub in_rest : String → ℕ → Bool
in_rest chipset first = elem chipset (drop first intel_chipsets)

unfoldable pub is_at : String → List String → ℕ → Bool
is_at chipset chipsets i = elim (get_elem? chipsets i) [ none ↦ false | some c ↦ str_eq c chipset ]

-- `subsystem in ids`: of a tuple, or of a text, which a subsystem that is missing cannot be in.
unfoldable pub in_subsystems : Option String → Subsystems → Option Bool
in_subsystems (some subsystem) (one t) = some (includes t subsystem)
in_subsystems none (one t) = none
in_subsystems (some subsystem) (several ts) = some (elem subsystem ts)
in_subsystems none (several ts) = some false

unfoldable pub is_chromebook_device : Device → Option Bool
is_chromebook_device d = elim (get d.device_id chromebook_ids) [
  | none ↦ some false
  | some ids ↦ in_subsystems d.subsystem_id ids
]

-- The `any` over the system devices, `none` where it raises.
unfoldable pub any_chromebook : Dict Device → Option Bool
any_chromebook [] = some false
any_chromebook ((name, d) ∷ ds) =
    let rest = any_chromebook ds in
    elim (is_chromebook_device d) [ none ↦ none | some found ↦ if found then some true else rest ]

unfoldable pub is_memory_protected : Report → Option Bool
is_memory_protected report =
    if includes report.motherboard_name "GOOGLE"
    then some true
    else any_chromebook (listed_system_devices report)

unfoldable pub is_amd : Report → Bool
is_amd report = includes report.cpu.manufacturer "AMD"

unfoldable pub needs_devirtualising : Report → String → Bool
needs_devirtualising report chipset =
    elim (mmio_whitelist chipset) [ [] ↦ false | _ ∷ _ ↦ true ]
    || (in_rest chipset 112 || in_slice chipset 90 100)
    || (in_slice chipset 104 112
        && (includes report.platform "Desktop" || not (includes report.cpu.processor_name "-8")))
    || is_at chipset amd_chipsets 16

unfoldable pub unprotects_writes : Report → String → Bool
unprotects_writes report chipset = not (
    str_eq report.firmware_type "Legacy"
    || is_amd report
    || (in_slice chipset 91 100 || in_rest chipset 112))

unfoldable pub protects_services : Report → String → Bool
protects_services report chipset =
    in_rest chipset 112
    || (in_slice chipset 104 112
        && (not (includes report.cpu.processor_name "-8") || is_at chipset intel_chipsets 109))

-- `IntelCPUGenerations[-11:]`
unfoldable pub oldest_generations : List String
oldest_generations = drop 66 intel_cpu_generations

unfoldable pub rebuilds_memory_map : Report → String → Version → Bool
rebuilds_memory_map report chipset macos =
    if not (elem report.cpu.codename oldest_generations)
    then not (unprotects_writes report chipset)
    else lt_version macos (version 10 0 0)

unfoldable pub maps_virtually : Report → String → Bool
maps_virtually report chipset =
    str_eq report.firmware_type "UEFI"
    && not (elem chipset (drop 11 (take 17 amd_chipsets)) || in_slice chipset 90 100)

unfoldable pub booter_quirks : Report → String → Version → Option BooterQuirks
booter_quirks report chipset macos = elim (is_memory_protected report) [
  | none ↦ none
  | some protected ↦ some (record {
    avoid_runtime_defrag =
        not (str_eq report.firmware_type "Legacy" && not (version_eq macos (version 20 0 0)));
    devirtualise_mmio = needs_devirtualising report chipset;
    enable_safe_mode_slide = str_eq report.firmware_type "UEFI";
    enable_write_unprotector = unprotects_writes report chipset;
    protect_memory_regions = protected;
    fixup_apple_efi_images =
        not (str_eq report.firmware_type "Legacy" && lt_version (version 17 0 0) macos);
    protect_uefi_services = protects_services report chipset;
    provide_custom_slide = str_eq report.firmware_type "UEFI";
    rebuild_apple_memory_map = rebuilds_memory_map report chipset macos;
    resize_apple_gpu_bars = not (no_resizable_bar report);
    setup_virtual_map = maps_virtually report chipset;
    sync_runtime_permissions = is_amd report || (in_slice chipset 90 100 || in_rest chipset 104);
  })
]

-- ===== src/Config/Kernel.antt =====
-- The quirks of the Kernel section, in `genarate` of Scripts/config_prodigy.py.
pub mod Laws
use freaky_ocs.Base.{
  ℕ, String, Bool, true, false, not, ◌&&◌, ◌||◌, Option, none, some, List, [], ◌∷◌, take, drop, any,
  elem, includes, if◌then◌else◌,
}
use freaky_ocs.CpuData.{intel_cpu_generations}
use freaky_ocs.PciData.Ethernet.{aquantia_aqtion_ids}
use freaky_ocs.Report.{Device, Report}
use freaky_ocs.Kexts.Select.System.{is_intel_hedt_cpu}
use freaky_ocs.Config.Booter.{is_amd}
use freaky_ocs.Config.Cpu.{is_low_end_intel_cpu}

-- The keys of config["Kernel"]["Quirks"], and DummyPowerManagement of ["Emulate"].
pub record KernelQuirks : Type 0 where
  pub dummy_power_management : Bool
  pub apple_cpu_pm_cfg_lock : Bool
  pub apple_xcpm_cfg_lock : Bool
  pub apple_xcpm_extra_msrs : Bool
  pub apple_xcpm_force_boost : Bool
  pub custom_smbios_guid : Bool
  pub disable_io_mapper : Bool
  pub disable_rtc_checksum : Bool
  pub force_aquantia_ethernet : Bool
  pub lapic_kernel_panic : Bool
  pub panic_no_kext_dump : Bool
  pub power_timeout_kernel_panic : Bool
  pub provide_current_cpu_info : Bool

-- `IntelCPUGenerations[62:]`, `[50:]`, `[:4]` and `[4:20]`
unfoldable pub locked_generations : List String
locked_generations = drop 62 intel_cpu_generations

unfoldable pub msrs_generations : List String
msrs_generations = drop 50 intel_cpu_generations

unfoldable pub boosted_generations : List String
boosted_generations = take 4 intel_cpu_generations

unfoldable pub hybrid_generations : List String
hybrid_generations = drop 4 (take 20 intel_cpu_generations)

unfoldable pub kernel_quirks : Report → KernelQuirks
kernel_quirks report =
    let codename = report.cpu.codename in
    let locked = elem codename locked_generations in
    record {
      dummy_power_management = is_amd report || is_low_end_intel_cpu report.cpu.processor_name;
      apple_cpu_pm_cfg_lock = locked;
      apple_xcpm_cfg_lock = if is_amd report then false else not locked;
      apple_xcpm_extra_msrs =
          is_intel_hedt_cpu report.cpu.processor_name codename && elem codename msrs_generations;
      apple_xcpm_force_boost = elem codename boosted_generations;
      custom_smbios_guid = true;
      disable_io_mapper = not (is_amd report);
      disable_rtc_checksum =
          includes report.motherboard_name "ASUS" || includes report.motherboard_name "HP ";
      force_aquantia_ethernet =
          any (λ item. elem (item.1.device_id) aquantia_aqtion_ids) report.network;
      lapic_kernel_panic = includes report.motherboard_name "HP ";
      panic_no_kext_dump = true;
      power_timeout_kernel_panic = true;
      provide_current_cpu_info = is_amd report || elem codename hybrid_generations;
    }

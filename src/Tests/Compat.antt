-- ===== src/Tests/Compat.antt =====
-- The theorems on the compatibility check at concrete reports.
use freaky_ocs.Base.{
  any, not, String, ◌≡◌, ◌↔◌, ◌⊎◌, Bool, true, false, Option, none, some, List, [], ◌∷◌, refl, All,
  includes, elem, ◌++◌, if◌then◌else◌, starts_with,
}
use freaky_ocs.Report.{Device, Report, Range}
use freaky_ocs.Darwin.{version, ◌≤ᵥ◌, lt_version}
use freaky_ocs.Compat.State.{Checker, next, exit_program, raised}
use freaky_ocs.Compat.Cpu.{cpu_compatibility, check_cpu_compatibility}
use freaky_ocs.Compat.Cpu.Laws.{check_cpu_compatibility_lem, IsWithin}
use freaky_ocs.Compat.Gpu.{assess_gpu}
use freaky_ocs.Compat.Gpu.Ranges.{assess_gpu-ranges}
use freaky_ocs.Compat.Gpu.Check.{is_unsupported, check_gpu_compatibility}
use freaky_ocs.Compat.Gpu.Hull.{Within}
use freaky_ocs.Compat.Gpu.Attained.{Attained}
use freaky_ocs.Compat.Gpu.Vga.{check_gpu_compatibility-no_monitors}
use freaky_ocs.Compat.Devices.{network_range, assess_network}
use freaky_ocs.Compat.Devices.{check_network_compatibility}
use freaky_ocs.Compat.Devices.Ranges.{Extends, assess_network-ranges}
use freaky_ocs.Compat.Devices.Patched.{Reaches, check_network_compatibility-Reaches}
use freaky_ocs.Compat.Run.{check_compatibility}
use freaky_ocs.Compat.Run.Native.{check_compatibility-native}
use freaky_ocs.Compat.Storage.{check_storage_compatibility}
use freaky_ocs.Compat.Storage.Laws.{is_vmd, check_storage_compatibility-usable}
use freaky_ocs.Compat.Run.Bare.{bare_report}
use freaky_ocs.Compat.Run.Laws.{check_compatibility-bare, check_compatibility_without_gpu}
use freaky_ocs.Compat.Gpu.Demotion.{check_gpu_compatibility-raises}
use freaky_ocs.Tests.Sample.{
  laptop, headless_laptop, uhd_630, rx_6600, hd_3000, bcm4360, all_versions, checked, nvme,
}

check_cpu_compatibility_lem_example :
    ((includes laptop.cpu.simd_features "SSE4" ≡ false)
      × (check_cpu_compatibility (checked laptop) ≡ exit_program))
    ⊎ ((r : Range) × (t : Checker) × (includes laptop.cpu.simd_features "SSE4" ≡ true)
        × (check_cpu_compatibility (checked laptop) ≡ next t)
        × (t.native ≡ some r)
        × (t.report.cpu.compatibility ≡ some (some r))
        × IsWithin r)
check_cpu_compatibility_lem_example = check_cpu_compatibility_lem (checked laptop)

assess_gpu-ranges_example :
    IsWithin all_versions
    × (((assess_gpu laptop "UHD 630" uhd_630).oclp ≡ none)
        ⊎ ((o : Range) × ((assess_gpu laptop "UHD 630" uhd_630).oclp ≡ some o)
            × (lt_version all_versions.max o.min ≡ true)
            × (o.min ≤ᵥ o.max)))
unfolding assess_gpu freaky_ocs.Compat.Gpu.ranges_of_gpu includes freaky_ocs.Compat.Gpu.intel_native
    freaky_ocs.Compat.Cpu.is_low_end_intel_cpu freaky_ocs.Base.starts_with_any
    freaky_ocs.Base.drop_chars elem freaky_ocs.Compat.Gpu.only_vga
    freaky_ocs.Compat.State.full_range
assess_gpu-ranges_example = assess_gpu-ranges laptop "UHD 630" uhd_630 all_versions refl

check_gpu_compatibility-no_monitors_example :
    check_gpu_compatibility
      (checked (record laptop { monitor = []; gpu = ("HD 3000", hd_3000) ∷ [] }))
    ≡ exit_program
unfolding includes freaky_ocs.Base.starts_with_any freaky_ocs.Base.drop_chars
check_gpu_compatibility-no_monitors_example =
    check_gpu_compatibility-no_monitors
      (checked (record laptop { monitor = []; gpu = ("HD 3000", hd_3000) ∷ [] })) refl refl

check_gpu_compatibility-raises_example : check_gpu_compatibility (checked laptop) ≡ raised
unfolding assess_gpu freaky_ocs.Compat.Gpu.Check.is_unsupported freaky_ocs.Compat.Gpu.ranges_of_gpu
    includes freaky_ocs.Compat.Gpu.intel_native freaky_ocs.Compat.Cpu.is_low_end_intel_cpu
    freaky_ocs.Base.starts_with_any freaky_ocs.Base.drop_chars elem freaky_ocs.Compat.Gpu.only_vga
    freaky_ocs.Compat.State.full_range freaky_ocs.Compat.Gpu.amd_ranges freaky_ocs.Report.device_eq
    freaky_ocs.Compat.Gpu.Check.internal_on_other freaky_ocs.Compat.Gpu.drives
check_gpu_compatibility-raises_example =
    check_gpu_compatibility-raises (checked laptop) "UHD 630" "RX 6600" uhd_630 rx_6600 [] refl refl
      refl refl refl refl

-- The laptop without GPUs as the check leaves it.
abbrev headless_checked : Report
headless_checked = record headless_laptop {
  cpu = record laptop.cpu { compatibility = some (some all_versions) };
  network =
      (
        "BCM4360",
        record bcm4360 {
          compatibility = some (some (record { max = version 22 99 99; min = version 17 0 0 }));
          oclp = some (record { max = version 25 99 99; min = version 23 0 0 });
        },
      )
      ∷ [];
}

check_compatibility-bare_example : bare_report headless_checked ≡ bare_report headless_laptop
unfolding check_compatibility check_cpu_compatibility cpu_compatibility includes
    freaky_ocs.Compat.Run.check_devices freaky_ocs.Compat.Devices.check_network_compatibility
    freaky_ocs.Compat.Devices.network_loop freaky_ocs.Compat.Devices.network_ocl
    freaky_ocs.Compat.State.merge_ocl_patched network_range elem
    freaky_ocs.PciData.Wireless.wireless_card_ids freaky_ocs.Base.index_of
    freaky_ocs.Compat.Devices.is_patched_wifi freaky_ocs.Compat.State.full_range
    freaky_ocs.Darwin.get_latest_darwin_version assess_network
check_compatibility-bare_example =
    check_compatibility-bare headless_laptop headless_checked all_versions
      (some (record { max = version 25 99 99; min = version 23 0 0 })) refl

check_compatibility_without_gpu_example :
    (t : Report) × (ocl : Option Range) × (check_compatibility headless_laptop
      ≡ next (t, all_versions, ocl))
unfolding cpu_compatibility includes freaky_ocs.Compat.State.full_range
check_compatibility_without_gpu_example =
    check_compatibility_without_gpu headless_laptop all_versions refl refl refl

check_compatibility-native_example :
    (c : Range) × (cpu_compatibility headless_laptop.cpu.simd_features ≡ some c)
    × Within all_versions c
unfolding check_compatibility check_cpu_compatibility cpu_compatibility includes
    freaky_ocs.Compat.Run.check_devices freaky_ocs.Compat.Devices.check_network_compatibility
    freaky_ocs.Compat.Devices.network_loop freaky_ocs.Compat.Devices.network_ocl
    freaky_ocs.Compat.State.merge_ocl_patched network_range elem
    freaky_ocs.PciData.Wireless.wireless_card_ids freaky_ocs.Base.index_of
    freaky_ocs.Compat.Devices.is_patched_wifi freaky_ocs.Compat.State.full_range
    freaky_ocs.Darwin.get_latest_darwin_version assess_network
check_compatibility-native_example =
    check_compatibility-native headless_laptop headless_checked all_versions
      (some (record { max = version 25 99 99; min = version 23 0 0 })) refl

-- A laptop with one NVMe drive, and the drive as the check leaves it.
abbrev nvme_laptop : Report
nvme_laptop = record laptop { storage = ("SM981", nvme) ∷ [] }

abbrev nvme_checked : Report
nvme_checked = record laptop {
  storage = ("SM981", record nvme { compatibility = some (some all_versions) }) ∷ [];
}

check_storage_compatibility-usable_example :
    All (λ ((_, d) : String × Device). is_vmd d ≡ false) (("SM981", nvme) ∷ [])
    × (any (λ ((_, d) : String × Device). not (is_unsupported d)) nvme_checked.storage ≡ true)
unfolding check_storage_compatibility freaky_ocs.Compat.Storage.storage_loop
    freaky_ocs.Compat.Storage.finish_storage freaky_ocs.Compat.Storage.nvme_compatibility
    freaky_ocs.Compat.Storage.is_unsupported_nvme freaky_ocs.Compat.Storage.among is_unsupported
    elem includes freaky_ocs.PciData.Controllers.intel_vmd_ids
    freaky_ocs.PciData.Controllers.unsupported_nvme_ssd_ids freaky_ocs.Compat.State.full_range
check_storage_compatibility-usable_example =
    check_storage_compatibility-usable (checked nvme_laptop) (checked nvme_checked) refl

-- The state after the GPU check of a PC whose GPU has a patched range.
abbrev patched : Range
patched = record { max = version 24 99 99; min = version 20 0 0 }

abbrev gpu_checked : Checker
gpu_checked = record (checked laptop) { ocl_patched = some patched }

check_network_compatibility-Reaches_example :
    (t : Checker) × (check_network_compatibility gpu_checked ≡ next t)
    × All (λ ((_, d) : String × Device). Reaches t.ocl_patched d.oclp) t.report.network
    × Reaches t.ocl_patched (some patched)
unfolding freaky_ocs.Darwin.le_version
check_network_compatibility-Reaches_example =
    check_network_compatibility-Reaches gpu_checked (some patched) ((refl, refl), tt) refl

abbrev up_to_ventura : Range
up_to_ventura = record { max = version 22 99 99; min = version 17 0 0 }

assess_network-ranges_example :
    IsWithin up_to_ventura
    × (((assess_network bcm4360).oclp ≡ none)
        ⊎ ((o : Range) × ((assess_network bcm4360).oclp ≡ some o) × Extends up_to_ventura o))
unfolding assess_network network_range elem freaky_ocs.PciData.Wireless.wireless_card_ids
    freaky_ocs.Base.index_of freaky_ocs.Compat.Devices.is_patched_wifi
    freaky_ocs.Compat.State.full_range freaky_ocs.Darwin.get_latest_darwin_version
assess_network-ranges_example = assess_network-ranges bcm4360 up_to_ventura refl refl refl

-- ===== src/Tests/Config.antt =====
-- The theorems on the values of config.plist at concrete inputs.
use freaky_ocs.Base.{
  ℕ, String, ◌≡◌, Bool, true, false, ◌==◌, Option, some, none, List, [], ◌∷◌, ◌++◌, get_elem?, refl,
}
use freaky_ocs.Base.Dict.{Dict, get}
use freaky_ocs.Darwin.{version}
use freaky_ocs.Report.{Monitor, Report}
use freaky_ocs.Codecs.Entry.{Layout, layout}
use freaky_ocs.Kexts.Data.{kexts}
use freaky_ocs.Kexts.Check.{Checks}
use freaky_ocs.Kexts.Ask.{Answers}
use freaky_ocs.Config.Igpu.{igpu_properties}
use freaky_ocs.Config.Igpu.State.{Properties, Igpu, rest}
use freaky_ocs.Config.Igpu.Memory.{igpu_properties-4k}
use freaky_ocs.Config.Audio.{ask_layout, is_configured, select_audio_codec_layout}
use freaky_ocs.Config.Audio.Laws.{
  AnswersOffered, OfCodec, ask_layout-ends, select_audio_codec_layout-Selects, fails, lacks_section,
}
use freaky_ocs.Config.BootArgs.{Settings, boot_args}
use freaky_ocs.Config.BootArgs.Lilu.{Counts, Result, any_needs_beta, boot_args-lilubetaall}
use freaky_ocs.Base.{◌⊎◌, includes, elem}
use freaky_ocs.Chipsets.{intel_chipsets}
use freaky_ocs.Config.Booter.{BooterQuirks, booter_quirks, is_at}
use freaky_ocs.Config.Booter.Laws.{booter_quirks-protects}
use freaky_ocs.Config.Kernel.{kernel_quirks}
use freaky_ocs.Config.Kernel.Laws.{kernel_quirks-boosted}
use freaky_ocs.Config.Drivers.{load_drivers, required_drivers}
use freaky_ocs.Config.Drivers.Laws.{in_good_order, paths, load_drivers-sorted}
use freaky_ocs.Tests.Sample.{uhd_630, laptop}

abbrev monitors : Dict Monitor
monitors =
    (
      "Screen",
      record {
        connector_type = "Internal";
        connected_gpu = some "UHD 630";
        resolution = (3840, 2160);
      },
    )
    ∷ []

igpu_properties-4k_example :
    (get "framebuffer-stolenmem"
        (igpu_properties "Laptop" "UHD 630" uhd_630 monitors (version 22 0 0))
      ≡ none)
    × (get "framebuffer-fbmem"
          (igpu_properties "Laptop" "UHD 630" uhd_630 monitors (version 22 0 0))
        ≡ none)
unfolding freaky_ocs.Config.Igpu.State.wide
igpu_properties-4k_example =
    igpu_properties-4k "Laptop" "UHD 630" uhd_630 monitors (version 22 0 0) refl

-- The properties of the iGPU with the monitor of the laptop.
igpu_properties_runs :
    get "framebuffer-stolenmem"
      (igpu_properties "Laptop" "UHD 630" uhd_630 laptop.monitor (version 22 0 0))
    ≡ some "00003001"
unfolding get igpu_properties freaky_ocs.Base.starts_with_any freaky_ocs.Base.drop_chars
    freaky_ocs.Config.Igpu.Later.coffee_lake freaky_ocs.Config.Igpu.State.is_on
    freaky_ocs.Config.Igpu.State.wide freaky_ocs.Config.Igpu.State.put freaky_ocs.Base.Dict.insert
    freaky_ocs.Config.Igpu.State.put_if freaky_ocs.Config.Igpu.State.spoof freaky_ocs.Base.elem
igpu_properties_runs = refl

abbrev layouts : List Layout
layouts = layout 11 "One" ∷ layout 28 "Other" ∷ []

ask_layout-ends_example :
    AnswersOffered layouts (ask_layout layouts (layout 28 "Other") (("7" ∷ "x" ∷ []) ++ ("" ∷ [])))
ask_layout-ends_example = ask_layout-ends layouts (layout 28 "Other") ("7" ∷ "x" ∷ []) [] refl

-- `random.choice` takes the first.
first_layout : List Layout → Layout
first_layout [] = layout 0 ""
first_layout (l ∷ ls) = l

abbrev with_codec : Report
with_codec = record laptop { sound = ("ALC", record uhd_630 { device_id = "10EC-0295" }) ∷ [] }

select_audio_codec_layout-Selects_example :
    Answers
      (OfCodec with_codec.sound)
      (select_audio_codec_layout first_layout with_codec none false ("99" ∷ "+13" ∷ []))
unfolding fails is_configured lacks_section freaky_ocs.Config.Audio.find_codec elem
    freaky_ocs.Codecs.codec_layout_ids
select_audio_codec_layout-Selects_example =
    select_audio_codec_layout-Selects first_layout with_codec none false ("99" ∷ "+13" ∷ [])

-- The codec names its controller, and the report has no section for it.
abbrev with_controller : Report
with_controller = record laptop {
  sound =
      ("ALC", record uhd_630 { device_id = "10EC-0295"; controller_device_id = some "8086-A348" })
      ∷ [];
}

fails_run : fails with_controller none ≡ true
unfolding fails is_configured lacks_section freaky_ocs.Config.Audio.find_codec elem
    freaky_ocs.Codecs.codec_layout_ids
fails_run = refl

-- NootRX (8) is checked on a version that it does not support.
abbrev settings : Settings
settings = record {
  report = with_codec;
  macos = version 19 0 0;
  choose = first_layout;
  properties = [];
}

noot_rx : Checks
noot_rx j = j == 8

boot_args-lilubetaall_example :
    Result
      (Counts (any_needs_beta (version 19 0 0) kexts noot_rx))
      (boot_args settings false noot_rx [])
boot_args-lilubetaall_example = boot_args-lilubetaall settings false noot_rx []

needs_beta_runs : any_needs_beta (version 19 0 0) kexts noot_rx ≡ true
unfolding any_needs_beta kexts noot_rx freaky_ocs.Config.BootArgs.needs_lilu_beta
    freaky_ocs.Base.elem freaky_ocs.Darwin.le_version
needs_beta_runs = refl

-- A Chromebook with an HM370 chipset.
abbrev chromebook : Report
chromebook = record laptop {
  cpu = record laptop.cpu { processor_name = "Intel Core i7-9750H" };
  system_devices =
      some
        (("EC", record uhd_630 { device_id = "8086-9D46"; subsystem_id = some "9D468086" }) ∷ []);
}

abbrev quirks : BooterQuirks
quirks = record {
  avoid_runtime_defrag = true;
  devirtualise_mmio = true;
  enable_safe_mode_slide = true;
  enable_write_unprotector = true;
  protect_memory_regions = true;
  fixup_apple_efi_images = true;
  protect_uefi_services = true;
  provide_custom_slide = true;
  rebuild_apple_memory_map = false;
  resize_apple_gpu_bars = false;
  setup_virtual_map = true;
  sync_runtime_permissions = true;
}

quirks_run : booter_quirks chromebook "HM370" (version 21 0 0) ≡ some quirks
unfolding booter_quirks freaky_ocs.Config.Booter.is_memory_protected
    freaky_ocs.Config.Booter.any_chromebook freaky_ocs.Config.Booter.is_chromebook_device
    freaky_ocs.Config.Booter.in_subsystems freaky_ocs.Config.Booter.is_amd
    freaky_ocs.Config.BootArgs.no_resizable_bar freaky_ocs.Config.Booter.needs_devirtualising
    freaky_ocs.Config.Booter.unprotects_writes freaky_ocs.Config.Booter.protects_services
    freaky_ocs.Config.Booter.rebuilds_memory_map freaky_ocs.Config.Booter.maps_virtually
    freaky_ocs.Config.Booter.in_slice freaky_ocs.Config.Booter.in_rest
    freaky_ocs.Config.Booter.is_at freaky_ocs.Config.Booter.oldest_generations
    freaky_ocs.Config.Cpu.mmio_whitelist freaky_ocs.Chipsets.intel_chipsets
    freaky_ocs.Chipsets.amd_chipsets freaky_ocs.CpuData.intel_cpu_generations
    freaky_ocs.PciData.Chromebook.chromebook_ids freaky_ocs.Base.elem freaky_ocs.Base.includes
    freaky_ocs.Base.Dict.get freaky_ocs.Darwin.lt_version freaky_ocs.Report.version_eq
    freaky_ocs.Darwin.le_version freaky_ocs.Report.listed_system_devices
quirks_run = refl

booter_quirks-protects_example :
    (true ≡ true)
    × ((true ≡ true)
        ⊎ ((is_at "HM370" intel_chipsets 109 ≡ true) × (includes "Laptop" "Desktop" ≡ false)))
booter_quirks-protects_example =
    booter_quirks-protects chromebook "HM370" (version 21 0 0) quirks quirks_run refl

load_drivers-sorted_example :
    (in_good_order (paths (load_drivers "Legacy" "Lynnfield" (version 25 0 0) "External")) ≡ true)
    × ((t : String)
        → elem t (paths (load_drivers "Legacy" "Lynnfield" (version 25 0 0) "External"))
          ≡ elem t (required_drivers "Legacy" "Lynnfield" (version 25 0 0) "External"))
load_drivers-sorted_example = load_drivers-sorted "Legacy" "Lynnfield" (version 25 0 0) "External"

load_drivers_run :
    paths (load_drivers "Legacy" "Lynnfield" (version 25 0 0) "External")
    ≡ "apfs_aligned.efi" ∷ "HfsPlusLegacy.efi" ∷ "OpenCanopy.efi" ∷ "OpenRuntime.efi"
      ∷ "OpenUsbKbDxe.efi" ∷ "ResetNvramEntry.efi" ∷ []
unfolding load_drivers required_drivers paths freaky_ocs.Config.Drivers.uefi_drivers
    freaky_ocs.Config.Drivers.sort_lower freaky_ocs.Config.Drivers.insert_lower
    freaky_ocs.Config.Drivers.driver_of freaky_ocs.Base.le_lower freaky_ocs.Base.elem
    freaky_ocs.CpuData.intel_cpu_generations freaky_ocs.Kexts.Select.System.when
    freaky_ocs.Darwin.le_version
load_drivers_run = refl

-- An Intel CPU of the first generations of the table.
abbrev arrow_lake : Report
arrow_lake = record laptop { cpu = record laptop.cpu { codename = "Arrow Lake-HX" } }

kernel_quirks-boosted_example :
    ((kernel_quirks arrow_lake).apple_cpu_pm_cfg_lock ≡ false)
    × ((kernel_quirks arrow_lake).provide_current_cpu_info ≡ false)
    × ((kernel_quirks arrow_lake).apple_xcpm_cfg_lock ≡ true)
    × ((kernel_quirks arrow_lake).disable_io_mapper ≡ true)
unfolding kernel_quirks freaky_ocs.Config.Booter.is_amd freaky_ocs.Config.Kernel.boosted_generations
    freaky_ocs.CpuData.intel_cpu_generations freaky_ocs.Base.elem freaky_ocs.Base.includes
kernel_quirks-boosted_example = kernel_quirks-boosted arrow_lake refl refl

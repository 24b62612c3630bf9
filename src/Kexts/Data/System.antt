-- ===== src/Kexts/Data/System.antt =====
-- Kexts of the table in Scripts/datasets/kext_data.py.
use freaky_ocs.Base.{none, some, List, [], ◌∷◌, true, false}
use freaky_ocs.Darwin.{version}
use freaky_ocs.Kexts.Info.{KextInfo, kext_info, with_conflicts}

unfoldable pub required_kexts : List KextInfo
unfolding kext_info
required_kexts =
    kext_info "Lilu" "For arbitrary kext, library, and program patching" "Required" true none none
      [] (some ("acidanthera", "Lilu"))
    ∷ kext_info "VirtualSMC" "Advanced Apple SMC emulator in the kernel" "Required" true none none
        ("Lilu" ∷ []) (some ("acidanthera", "VirtualSMC"))
    ∷ []

unfoldable pub virtual_smc_kexts : List KextInfo
unfolding kext_info
virtual_smc_kexts =
    kext_info "SMCBatteryManager" "Manages, monitors, and reports on battery status"
      "VirtualSMC Plugins" false none none ("Lilu" ∷ "VirtualSMC" ∷ [])
      (some ("acidanthera", "VirtualSMC"))
    ∷ kext_info "SMCDellSensors" "Enables fan monitoring and control on Dell computers"
        "VirtualSMC Plugins" false none none ("Lilu" ∷ "VirtualSMC" ∷ [])
        (some ("acidanthera", "VirtualSMC"))
    ∷ kext_info "SMCLightSensor" "Allows system utilize ambient light sensor device"
        "VirtualSMC Plugins" false none none ("Lilu" ∷ "VirtualSMC" ∷ [])
        (some ("acidanthera", "VirtualSMC"))
    ∷ kext_info "SMCProcessor" "Manages Intel CPU temperature sensors" "VirtualSMC Plugins" false
        none none ("Lilu" ∷ "VirtualSMC" ∷ []) (some ("acidanthera", "VirtualSMC"))
    ∷ kext_info "SMCRadeonSensors" "Provides temperature readings for AMD GPUs" "VirtualSMC Plugins"
        false (some (version 18 0 0)) none ("Lilu" ∷ "VirtualSMC" ∷ [])
        (some ("ChefKissInc", "SMCRadeonSensors"))
    ∷ kext_info "SMCSuperIO" "Monitoring hardware sensors and controlling fan speeds"
        "VirtualSMC Plugins" false none none ("Lilu" ∷ "VirtualSMC" ∷ [])
        (some ("acidanthera", "VirtualSMC"))
    ∷ []

unfoldable pub graphics_kexts : List KextInfo
unfolding kext_info
graphics_kexts =
    with_conflicts "GPU" (
      kext_info "NootRX" "The rDNA 2 dGPU support patch kext" "Graphics" false
        (some (version 20 5 0)) none ("Lilu" ∷ []) (some ("ChefKissInc", "NootRX")))
    ∷ with_conflicts "GPU" (
        kext_info "NootedRed" "The AMD Vega iGPU support kext" "Graphics" false
          (some (version 19 0 0)) none ("Lilu" ∷ []) (some ("ChefKissInc", "NootedRed")))
    ∷ with_conflicts "GPU" (
        kext_info "WhateverGreen" "Various patches necessary for GPUs are pre-supported" "Graphics"
          false none none ("Lilu" ∷ []) (some ("acidanthera", "WhateverGreen")))
    ∷ []

unfoldable pub audio_kexts : List KextInfo
unfolding kext_info
audio_kexts =
    kext_info "AppleALC" "Native macOS HD audio for not officially supported codecs" "Audio" false
      none none ("Lilu" ∷ []) (some ("acidanthera", "AppleALC"))
    ∷ []

-- ===== src/Kexts/Data/Extras.antt =====
-- Kexts of the table in Scripts/datasets/kext_data.py.
use freaky_ocs.Base.{none, some, List, [], ◌∷◌, false}
use freaky_ocs.Darwin.{version}
use freaky_ocs.Kexts.Info.{KextInfo, kext_info, with_conflicts}

unfoldable pub tsc_kexts : List KextInfo
unfolding kext_info
tsc_kexts =
    with_conflicts "TSC" (
      kext_info "AmdTscSync" "A modified version of VoodooTSCSync for AMD CPUs"
        "TSC Synchronization" false none none [] (some ("naveenkrdy", "AmdTscSync")))
    ∷ with_conflicts "TSC" (
        kext_info "VoodooTSCSync" "A kernel extension which will synchronize the TSC on Intel CPUs"
          "TSC Synchronization" false none none [] (some ("RehabMan", "VoodooTSCSync")))
    ∷ with_conflicts "TSC" (
        kext_info "CpuTscSync" "Lilu plugin for TSC sync and disabling xcpm_urgency on Intel CPUs"
          "TSC Synchronization" false none none ("Lilu" ∷ []) (some ("acidanthera", "CpuTscSync")))
    ∷ with_conflicts "TSC" (
        kext_info "ForgedInvariant" "The plug & play kext for syncing the TSC on AMD & Intel"
          "TSC Synchronization" false none none ("Lilu" ∷ [])
          (some ("ChefKissInc", "ForgedInvariant")))
    ∷ []

unfoldable pub extra_kexts : List KextInfo
unfolding kext_info
extra_kexts =
    kext_info "AMFIPass" "A replacement for amfi=0x80 boot argument" "Extras" false
      (some (version 20 0 0)) none ("Lilu" ∷ []) none
    ∷ kext_info "ASPP-Override" "Re-enable CPU power management for Intel Sandy Bridge CPUs"
        "Extras" false (some (version 21 4 0)) none [] none
    ∷ kext_info "AppleIntelCPUPowerManagement" "Re-enable CPU power management on legacy Intel CPUs"
        "Extras" false (some (version 22 0 0)) none [] none
    ∷ kext_info "AppleIntelCPUPowerManagementClient"
        "Re-enable CPU power management on legacy Intel CPUs" "Extras" false (some (version 22 0 0))
        none [] none
    ∷ kext_info "AppleMCEReporterDisabler" "Disables AppleMCEReporter.kext to prevent kernel panics"
        "Extras" false none none [] none
    ∷ kext_info "BrightnessKeys" "Handler for brightness keys without DSDT patches" "Extras" false
        none none ("Lilu" ∷ []) (some ("acidanthera", "BrightnessKeys"))
    ∷ kext_info "CPUFriend"
        "Dynamic power management data injection (requires CPUFriendDataProvider)" "Extras" false
        none none ("Lilu" ∷ []) (some ("acidanthera", "CPUFriend"))
    ∷ kext_info "CpuTopologyRebuild" "Optimizes the core configuration of Intel Alder Lake CPUs+"
        "Extras" false none none ("Lilu" ∷ []) (some ("b00t0x", "CpuTopologyRebuild"))
    ∷ kext_info "CryptexFixup" "Various patches to install Rosetta cryptex" "Extras" false
        (some (version 22 0 0)) none ("Lilu" ∷ []) (some ("acidanthera", "CryptexFixup"))
    ∷ kext_info "ECEnabler" "Allows reading Embedded Controller fields over 1 byte long" "Extras"
        false none none ("Lilu" ∷ []) (some ("1Revenger1", "ECEnabler"))
    ∷ kext_info "FeatureUnlock" "Enable additional features on unsupported hardware" "Extras" false
        none none ("Lilu" ∷ []) (some ("acidanthera", "FeatureUnlock"))
    ∷ kext_info "HibernationFixup" "Fixes hibernation compatibility issues" "Extras" false none none
        ("Lilu" ∷ []) (some ("acidanthera", "HibernationFixup"))
    ∷ kext_info "NoTouchID"
        "Avoid lag in authentication dialogs for board IDs with Touch ID sensors" "Extras" false
        (some (version 17 5 0)) (some (version 19 6 0)) ("Lilu" ∷ [])
        (some ("al3xtjames", "NoTouchID"))
    ∷ kext_info "RestrictEvents" "Blocking unwanted processes and unlocking features" "Extras" false
        none none ("Lilu" ∷ []) (some ("acidanthera", "RestrictEvents"))
    ∷ kext_info "RTCMemoryFixup" "Emulate some offsets in your CMOS (RTC) memory" "Extras" false
        none none ("Lilu" ∷ []) (some ("acidanthera", "RTCMemoryFixup"))
    ∷ []

-- ===== src/Kexts/Data/Network.antt =====
-- Kexts of the table in Scripts/datasets/kext_data.py.
use freaky_ocs.Base.{none, some, List, [], ◌∷◌, false}
use freaky_ocs.Darwin.{version}
use freaky_ocs.Kexts.Info.{KextInfo, kext_info, with_conflicts}

unfoldable pub wifi_kexts : List KextInfo
unfolding kext_info
wifi_kexts =
    kext_info "AirportBrcmFixup" "Patches required for non-native Broadcom Wi-Fi cards" "Wi-Fi"
      false none none ("Lilu" ∷ []) (some ("acidanthera", "AirportBrcmFixup"))
    ∷ with_conflicts "IntelWiFi" (
        kext_info "AirportItlwm" "Intel Wi-Fi drivers support the native macOS Wi-Fi interface"
          "Wi-Fi" false none none [] (some ("OpenIntelWireless", "itlwm")))
    ∷ kext_info "corecaptureElCap" "Enable legacy Qualcomm Atheros Wireless cards" "Wi-Fi" false
        (some (version 18 0 0)) (some (version 24 99 99)) ("IO80211ElCap" ∷ []) none
    ∷ kext_info "IO80211ElCap" "Enable legacy Qualcomm Atheros Wireless cards" "Wi-Fi" false
        (some (version 18 0 0)) (some (version 24 99 99)) ("corecaptureElCap" ∷ []) none
    ∷ kext_info "IO80211FamilyLegacy" "Enable legacy Apple Wireless adapters" "Wi-Fi" false
        (some (version 23 0 0)) none ("AMFIPass" ∷ "IOSkywalkFamily" ∷ []) none
    ∷ kext_info "IOSkywalkFamily" "Enable legacy Apple Wireless adapters" "Wi-Fi" false
        (some (version 23 0 0)) none ("AMFIPass" ∷ "IO80211FamilyLegacy" ∷ []) none
    ∷ with_conflicts "IntelWiFi" (
        kext_info "itlwm"
          "Intel Wi-Fi drivers. Spoofs as Ethernet and connects to Wi-Fi via Heliport" "Wi-Fi" false
          none none [] (some ("OpenIntelWireless", "itlwm")))
    ∷ []

unfoldable pub bluetooth_kexts : List KextInfo
unfolding kext_info
bluetooth_kexts =
    kext_info "Ath3kBT" "Uploads firmware to enable Atheros Bluetooth support" "Bluetooth" false
      none (some (version 20 99 99)) ("Ath3kBTInjector" ∷ [])
      (some ("zxystd", "AthBluetoothFirmware"))
    ∷ kext_info "Ath3kBTInjector" "Uploads firmware to enable Atheros Bluetooth support" "Bluetooth"
        false none (some (version 20 99 99)) ("Ath3kBT" ∷ [])
        (some ("zxystd", "AthBluetoothFirmware"))
    ∷ kext_info "BlueToolFixup" "Patches Bluetooth stack to support third-party cards" "Bluetooth"
        false (some (version 21 0 0)) none ("Lilu" ∷ []) (some ("acidanthera", "BrcmPatchRAM"))
    ∷ kext_info "BrcmBluetoothInjector"
        "Enables the Broadcom Bluetooth on/off switch on older versions" "Bluetooth" false none
        (some (version 20 99 99))
        ("BrcmBluetoothInjector" ∷ "BrcmFirmwareData" ∷ "BrcmPatchRAM2" ∷ "BrcmPatchRAM3" ∷ [])
        (some ("acidanthera", "BrcmPatchRAM"))
    ∷ kext_info "BrcmFirmwareData" "Applies PatchRAM updates for Broadcom RAMUSB based devices"
        "Bluetooth" false none none
        ("BlueToolFixup" ∷ "BrcmBluetoothInjector" ∷ "BrcmPatchRAM2" ∷ "BrcmPatchRAM3" ∷ [])
        (some ("acidanthera", "BrcmPatchRAM"))
    ∷ kext_info "BrcmPatchRAM2" "Applies PatchRAM updates for Broadcom RAMUSB based devices"
        "Bluetooth" false none (some (version 18 99 99))
        ("BlueToolFixup" ∷ "BrcmBluetoothInjector" ∷ "BrcmFirmwareData" ∷ "BrcmPatchRAM3" ∷ [])
        (some ("acidanthera", "BrcmPatchRAM"))
    ∷ kext_info "BrcmPatchRAM3" "Applies PatchRAM updates for Broadcom RAMUSB based devices"
        "Bluetooth" false (some (version 19 0 0)) none
        ("BlueToolFixup" ∷ "BrcmBluetoothInjector" ∷ "BrcmFirmwareData" ∷ "BrcmPatchRAM2" ∷ [])
        (some ("acidanthera", "BrcmPatchRAM"))
    ∷ kext_info "IntelBluetoothFirmware" "Uploads firmware to enable Intel Bluetooth support"
        "Bluetooth" false none none
        ("BlueToolFixup" ∷ "IntelBTPatcher" ∷ "IntelBluetoothInjector" ∷ [])
        (some ("lshbluesky", "IntelBluetoothFirmware"))
    ∷ kext_info "IntelBTPatcher" "Fixes Intel Bluetooth bugs for better connectivity" "Bluetooth"
        false none none
        ("Lilu" ∷ "BlueToolFixup" ∷ "IntelBluetoothFirmware" ∷ "IntelBluetoothInjector" ∷ [])
        (some ("lshbluesky", "IntelBluetoothFirmware"))
    ∷ kext_info "IntelBluetoothInjector"
        "Enables the Intel Bluetooth on/off switch on older versions" "Bluetooth" false none
        (some (version 20 99 99))
        ("BlueToolFixup" ∷ "IntelBluetoothFirmware" ∷ "IntelBTPatcher" ∷ [])
        (some ("lshbluesky", "IntelBluetoothFirmware"))
    ∷ []

unfoldable pub ethernet_kexts : List KextInfo
unfolding kext_info
ethernet_kexts =
    kext_info "AppleIGB" "Provides support for Intel's IGB Ethernet controllers" "Ethernet" false
      none none [] (some ("donatengit", "AppleIGB"))
    ∷ kext_info "AppleIGC" "Provides support for Intel 2.5G Ethernet(i225/i226)" "Ethernet" false
        none none [] (some ("SongXiaoXi", "AppleIGC"))
    ∷ kext_info "AtherosE2200Ethernet" "Provides support for Atheros E2200 family" "Ethernet" false
        none none [] (some ("Mieze", "AtherosE2200Ethernet"))
    ∷ kext_info "CatalinaBCM5701Ethernet" "Provides support for Broadcom BCM57XX Ethernet series"
        "Ethernet" false (some (version 20 0 0)) none [] none
    ∷ kext_info "HoRNDIS" "Use the USB tethering mode of the Android phone to access the Internet"
        "Ethernet" false none none [] (some ("TomHeaven", "HoRNDIS"))
    ∷ kext_info "IntelLucy" "Provides support for Intel X500 family" "Ethernet" false none none []
        (some ("Mieze", "IntelLucy"))
    ∷ kext_info "IntelMausiEthernet" "Intel Ethernet LAN driver for macOS" "Ethernet" false none
        none [] (some ("CloverHackyColor", "IntelMausiEthernet"))
    ∷ kext_info "LucyRTL8125Ethernet" "Provides support for Realtek RTL8125 family" "Ethernet" false
        none none [] (some ("Mieze", "LucyRTL8125Ethernet"))
    ∷ kext_info "NullEthernet"
        "Creates a Null Ethernet when no supported network hardware is present" "Ethernet" false
        none none [] (some ("RehabMan", "os-x-null-ethernet"))
    ∷ kext_info "RealtekRTL8100" "Provides support for Realtek RTL8100 family" "Ethernet" false none
        none [] (some ("Mieze", "RealtekRTL8100"))
    ∷ kext_info "RealtekRTL8111" "Provides support for Realtek RTL8111/8168 family" "Ethernet" false
        none none [] (some ("Mieze", "RTL8111_driver_for_OS_X"))
    ∷ []

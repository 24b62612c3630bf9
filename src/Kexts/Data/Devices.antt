-- ===== src/Kexts/Data/Devices.antt =====
-- Kexts of the table in Scripts/datasets/kext_data.py.
use freaky_ocs.Base.{none, some, List, [], ◌∷◌, false}
use freaky_ocs.Darwin.{version}
use freaky_ocs.Kexts.Info.{KextInfo, kext_info, with_conflicts}

unfoldable pub usb_kexts : List KextInfo
unfolding kext_info
usb_kexts =
    kext_info "GenericUSBXHCI" "Fixes USB 3.0 issues found on some Ryzen APU-based" "USB" false none
      none [] (some ("RattletraPM", "GUX-RyzenXHCIFix"))
    ∷ kext_info "USBToolBox" "Flexible USB mapping" "USB" false none none []
        (some ("USBToolBox", "kext"))
    ∷ kext_info "UTBDefault" "Enables all USB ports (assumes no port limit)" "USB" false none none
        ("USBToolBox" ∷ []) (some ("USBToolBox", "kext"))
    ∷ kext_info "XHCI-unsupported" "Enables USB 3.0 support for unsupported xHCI controllers" "USB"
        false none none [] (some ("daliansky", "OS-X-USB-Inject-All"))
    ∷ []

unfoldable pub input_kexts : List KextInfo
unfolding kext_info
input_kexts =
    kext_info "AlpsHID" "Brings native multitouch support to the Alps I2C touchpad" "Input" false
      none none ("VoodooI2C" ∷ []) (some ("blankmac", "AlpsHID"))
    ∷ kext_info "VoodooInput"
        "Provides Magic Trackpad 2 software emulation for arbitrary input sources" "Input" false
        none none [] (some ("acidanthera", "VoodooInput"))
    ∷ kext_info "VoodooPS2Controller" "Provides support for PS/2 keyboards, trackpads, and mouse"
        "Input" false none none [] (some ("acidanthera", "VoodooPS2"))
    ∷ kext_info "VoodooRMI" "Synaptic Trackpad kext over SMBus/I2C" "Input" false none none []
        (some ("VoodooSMBus", "VoodooRMI"))
    ∷ kext_info "VoodooSMBus" "i2c-i801 + ELAN SMBus Touchpad kext" "Input" false
        (some (version 18 0 0)) none [] (some ("VoodooSMBus", "VoodooSMBus"))
    ∷ kext_info "VoodooI2C" "Intel I2C controller and slave device drivers" "Input" false none none
        [] (some ("VoodooI2C", "VoodooI2C"))
    ∷ kext_info "VoodooI2CAtmelMXT" "A satellite kext for Atmel MXT I2C touchscreen" "Input" false
        none none ("VoodooI2C" ∷ []) (some ("VoodooI2C", "VoodooI2C"))
    ∷ kext_info "VoodooI2CELAN" "A satellite kext for ELAN I2C touchpads" "Input" false none none
        ("VoodooI2C" ∷ []) (some ("VoodooI2C", "VoodooI2C"))
    ∷ kext_info "VoodooI2CFTE" "A satellite kext for FTE based touchpads" "Input" false none none
        ("VoodooI2C" ∷ []) (some ("VoodooI2C", "VoodooI2C"))
    ∷ kext_info "VoodooI2CHID" "A satellite kext for HID I2C or ELAN1200+ input devices" "Input"
        false none none ("VoodooI2C" ∷ []) (some ("VoodooI2C", "VoodooI2C"))
    ∷ kext_info "VoodooI2CSynaptics" "A satellite kext for Synaptics I2C touchpads" "Input" false
        none none ("VoodooI2C" ∷ []) (some ("VoodooI2C", "VoodooI2C"))
    ∷ []

unfoldable pub brand_kexts : List KextInfo
unfolding kext_info
brand_kexts =
    kext_info "AsusSMC" "Supports ALS, keyboard backlight, and Fn keys on ASUS laptops"
      "Brand Specific" false none (some (version 23 99 99)) ("Lilu" ∷ [])
      (some ("hieplpvip", "AsusSMC"))
    ∷ kext_info "BigSurface" "A fully intergrated kext for all Surface related hardwares"
        "Brand Specific" false none none ("Lilu" ∷ []) (some ("Xiashangning", "BigSurface"))
    ∷ kext_info "YogaSMC"
        "Enables support for syncing SMC keys, controlling sensors and managing vendor-specific features"
        "Brand Specific" false none none ("Lilu" ∷ "VirtualSMC" ∷ []) (some ("zhen-zen", "YogaSMC"))
    ∷ []

unfoldable pub storage_kexts : List KextInfo
unfolding kext_info
storage_kexts =
    with_conflicts "SATA" (
      kext_info "CtlnaAHCIPort" "Improves support for certain SATA controllers" "Storage" false
        (some (version 20 0 0)) none [] none)
    ∷ with_conflicts "SATA" (
        kext_info "SATA-unsupported" "Improves support for certain SATA controllers" "Storage" false
          none (some (version 19 99 99)) [] none)
    ∷ kext_info "NVMeFix" "Addresses compatibility and performance issues with NVMe SSDs" "Storage"
        false (some (version 18 0 0)) none ("Lilu" ∷ []) (some ("acidanthera", "NVMeFix"))
    ∷ []

unfoldable pub card_reader_kexts : List KextInfo
unfolding kext_info
card_reader_kexts =
    with_conflicts "RealtekCardReader" (
      kext_info "RealtekCardReader" "Realtek PCIe/USB-based SD card reader driver" "Card Reader"
        false (some (version 18 0 0)) (some (version 23 99 99)) ("RealtekCardReaderFriend" ∷ [])
        (some ("0xFireWolf", "RealtekCardReader")))
    ∷ kext_info "RealtekCardReaderFriend"
        "Makes System Information recognize your Realtek card reader" "Card Reader" false
        (some (version 18 0 0)) (some (version 22 99 99)) ("Lilu" ∷ "RealtekCardReader" ∷ [])
        (some ("0xFireWolf", "RealtekCardReaderFriend"))
    ∷ with_conflicts "RealtekCardReader" (
        kext_info "Sinetek-rtsx" "Realtek PCIe-based SD card reader driver" "Card Reader" false none
          none [] (some ("cholonam", "Sinetek-rtsx")))
    ∷ []

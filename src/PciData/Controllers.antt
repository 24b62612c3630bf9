-- ===== src/PciData/Controllers.antt =====
-- Card reader, storage and audio controller IDs: Scripts/datasets/pci_data.py.
use freaky_ocs.Base.{String, List, [], ◌∷◌}

-- The subsystem IDs of a device. Python reads `("A811144D")` as the text, and only two or more in
-- parentheses as a tuple.
pub data SubsystemIds : Type 0 where
  one : String → SubsystemIds
  several : List String → SubsystemIds

unfoldable pub realtek_card_reader_ids : List String
realtek_card_reader_ids =
    "0BDA-0129" ∷ "0BDA-0139" ∷ "0BDA-0140" ∷ "10EC-524A" ∷ "10EC-5260" ∷ "10EC-5209" ∷ "10EC-5227"
    ∷ "10EC-5229" ∷ "10EC-522A" ∷ "10EC-5249" ∷ "10EC-525A" ∷ "10EC-5286" ∷ "10EC-5287"
    ∷ "10EC-5289" ∷ []

unfoldable pub unsupported_usb_controller_ids : List (String × SubsystemIds)
unsupported_usb_controller_ids =
    ("1022-1639", several ([]))
    ∷ ("1022-15E0", one "0A111028")
    ∷ ("1022-15E1", one "0A111028")
    ∷ ("8086-02ED", several ([]))
    ∷ ("8086-06ED", several ([]))
    ∷ ("8086-34ED", several ([]))
    ∷ ("8086-43ED", several ([]))
    ∷ ("8086-51ED", several ([]))
    ∷ ("8086-7A60", several ([]))
    ∷ ("8086-7AE0", several ([]))
    ∷ ("8086-8CB1", several ([]))
    ∷ ("8086-8D31", several ([]))
    ∷ ("8086-9DED", several ([]))
    ∷ ("8086-A0ED", several ([]))
    ∷ ("8086-A2AF", several ([]))
    ∷ ("8086-A36D", several ([]))
    ∷ ("8086-A3AF", several ([]))
    ∷ []

unfoldable pub unsupported_sata_controller_ids : List String
unsupported_sata_controller_ids =
    "8086-A352" ∷ "8086-A182" ∷ "8086-A102" ∷ "8086-9C83" ∷ "8086-9C03" ∷ "8086-8C83" ∷ "8086-8C03"
    ∷ "8086-8C02" ∷ "8086-3B2F" ∷ "8086-3B29" ∷ "8086-3B22" ∷ "8086-1E03" ∷ "8086-1E02"
    ∷ "8086-1C03" ∷ "8086-1C02" ∷ "1022-7801" ∷ "1022-7804" ∷ "1022-7901" ∷ "1022-7904"
    ∷ "1022-43EB" ∷ "8086-2822" ∷ "8086-282A" ∷ "8086-9D03" ∷ "8086-9DD3" ∷ "8086-A103"
    ∷ "8086-A282" ∷ "8086-A353" ∷ []

unfoldable pub intel_vmd_ids : List String
intel_vmd_ids = "8086-09AB" ∷ "8086-467F" ∷ []

unfoldable pub unsupported_nvme_ssd_ids : List (String × SubsystemIds)
unsupported_nvme_ssd_ids =
    ("144D-A808", one "A811144D")
    ∷ ("1344-5410", one "01001344")
    ∷ ("1C5C-174A", one "174A1C5C")
    ∷ ("1C5C-1639", one "16391C5C")
    ∷ ("1C5C-1627", one "16271C5C")
    ∷ ("8086-2522", several ("00008086" ∷ "38028086" ∷ "38068086" ∷ "38108086" ∷ "38118086" ∷ []))
    ∷ ("8086-2525", one "380A8086")
    ∷ ("8086-2700", several ("39008086" ∷ "39018086" ∷ "39028086" ∷ []))
    ∷ ("8086-0975", several ("85108086" ∷ "84108086" ∷ []))
    ∷ ("8086-09AD", several ("85108086" ∷ "84108086" ∷ []))
    ∷ []

unfoldable pub intel_sst_ids : List String
intel_sst_ids =
    "8086-02C8" ∷ "8086-1A98" ∷ "8086-3198" ∷ "8086-34C8" ∷ "8086-38C8" ∷ "8086-43C8" ∷ "8086-4DC8"
    ∷ "8086-51CC" ∷ "8086-5A98" ∷ "8086-7AD0" ∷ "8086-9CB6" ∷ "8086-9D70" ∷ "8086-9D71"
    ∷ "8086-9D72" ∷ "8086-9D74" ∷ "8086-9DC8" ∷ "8086-A0C8" ∷ "8086-A170" ∷ "8086-A171"
    ∷ "8086-A2F0" ∷ "8086-A348" ∷ "8086-A3F0" ∷ "8086-F0C8" ∷ []

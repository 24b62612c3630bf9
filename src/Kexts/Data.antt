-- ===== src/Kexts/Data.antt =====
-- The table of kexts: Scripts/datasets/kext_data.py.
mod System
mod Network
mod Devices
mod Extras
use freaky_ocs.Base.{
  ℕ, zero, suc, ◌≡◌, refl, String, Option, none, some, List, [], ◌∷◌, ◌++◌, str_eq, if◌then◌else◌,
}
use freaky_ocs.Kexts.Info.{KextInfo}
use freaky_ocs.Kexts.Data.System.{required_kexts, virtual_smc_kexts, graphics_kexts, audio_kexts}
use freaky_ocs.Kexts.Data.Network.{wifi_kexts, bluetooth_kexts, ethernet_kexts}
use freaky_ocs.Kexts.Data.Devices.{
  usb_kexts, input_kexts, brand_kexts, storage_kexts, card_reader_kexts,
}
use freaky_ocs.Kexts.Data.Extras.{tsc_kexts, extra_kexts}

unfoldable pub kexts : List KextInfo
unfolding required_kexts virtual_smc_kexts graphics_kexts audio_kexts wifi_kexts bluetooth_kexts
    ethernet_kexts usb_kexts input_kexts brand_kexts storage_kexts card_reader_kexts tsc_kexts
    extra_kexts
kexts =
    required_kexts
    ++ (virtual_smc_kexts
        ++ (graphics_kexts
            ++ (audio_kexts
                ++ (wifi_kexts
                    ++ (bluetooth_kexts
                        ++ (ethernet_kexts
                            ++ (usb_kexts
                                ++ (input_kexts
                                    ++ (brand_kexts
                                        ++ (storage_kexts
                                            ++ (card_reader_kexts
                                                ++ (tsc_kexts ++ extra_kexts))))))))))))

-- `kext_index_by_name.get(name)`: of two equal names the last would count.
unfoldable pub index_by_name : List KextInfo → String → Option ℕ
index_by_name [] name = none
index_by_name (k ∷ ks) name = elim (index_by_name ks name) [
  | some i ↦ some (suc i)
  | none ↦ if str_eq k.name name then some 0 else none
]

index_by_name_runs : index_by_name kexts "RTCMemoryFixup" ≡ some 82
unfolding index_by_name kexts
index_by_name_runs = refl

-- ===== src/Kexts/Select/Network.antt =====
-- The kexts for the network and Bluetooth devices: `select_required_kexts` in
-- Scripts/kext_maestro.py.
use freaky_ocs.Base.{
  ℕ, String, Bool, false, ◌&&◌, ◌||◌, ◌==◌, Option, none, some, List, [], ◌∷◌, ◌++◌, all, drop,
  take, get_elem?, elem, includes, str_eq, strip, lower_is, last_text, if◌then◌else◌,
}
use freaky_ocs.Base.Dict.{Dict}
use freaky_ocs.Darwin.{Version, version, lt_version, le_version, get_macos_name_by_darwin}
use freaky_ocs.Report.{Device}
use freaky_ocs.PciData.Wireless.{atheros_wifi_ids, broadcom_wifi_ids, intel_wifi_ids}
use freaky_ocs.PciData.Ethernet.{
  apple_igb_ids, atheros_e2200_ids, broadcom_bcm57xx_ids, intel_i22x_ids, intel_mausi_ids,
  intel_x500_ids, realtek_rtl8100_ids, realtek_rtl8111_ids, realtek_rtl8125_ids,
}
use freaky_ocs.PciData.Bluetooth.{
  atheros_bluetooth_ids, broadcom_bluetooth_ids, intel_bluetooth_ids, bluetooth_ids,
}
use freaky_ocs.Kexts.Ask.{answered, waiting, raised, Asking, ◌>>=◌, ask, chosen_option}
use freaky_ocs.Kexts.Select.System.{when}

-- The root patch question for AirportItlwm on Sonoma, until the answer is yes or no.
unfoldable pub ask_root_patch : Asking (List String)
ask_root_patch [] = waiting
ask_root_patch (answer ∷ inputs) =
    let rest = ask_root_patch inputs in
    if lower_is (strip answer) "yes"
    then answered ("IOSkywalkFamily" ∷ []) inputs
    else if lower_is (strip answer) "no"
    then answered [] inputs
    else rest

-- The option for an Intel Wi-Fi card, by the name of the release: 1 is AirportItlwm, 2 is itlwm.
-- A release without a name raises a TypeError.
unfoldable pub wifi_option_on : Version → Option String → Asking ℕ
wifi_option_on macos none inputs = raised
wifi_option_on macos (some name) inputs =
    let recommended = if le_version (version 23 0 0) macos then 2 else 1 in
    if includes name "Beta"
    then (ask inputs >>= λ _ inputs'. answered recommended inputs')
    else (ask inputs >>= λ answer inputs'. answered (chosen_option answer recommended 2) inputs')

unfoldable pub ask_wifi_option : Version → Asking ℕ
unfolding wifi_option_on
ask_wifi_option macos = wifi_option_on macos (get_macos_name_by_darwin macos.major)

unfoldable pub itlwm_kexts : Version → ℕ → Asking (List String)
itlwm_kexts macos option inputs =
    if option == 2
    then answered ("itlwm" ∷ []) inputs
    else if le_version (version 24 0 0) macos
    then answered ("AirportItlwm" ∷ "IOSkywalkFamily" ∷ []) inputs
    else if le_version (version 23 0 0) macos
    then (ask_root_patch inputs >>= λ names inputs'. answered ("AirportItlwm" ∷ names) inputs')
    else answered ("AirportItlwm" ∷ []) inputs

-- `device_id == BroadcomWiFiIDs[i]`
abbrev is_broadcom : ℕ → String → Bool
is_broadcom i device_id = elim (get_elem? broadcom_wifi_ids i) [
  | none ↦ false
  | some x ↦ str_eq device_id x
]

-- A Broadcom card that AirportBrcmFixup drives.
unfoldable pub fixes_broadcom : Version → String → Bool
fixes_broadcom macos device_id =
    elem device_id (take 15 broadcom_wifi_ids)
    || (is_broadcom 15 device_id && le_version (version 19 0 0) macos)
    || (elem device_id (take 2 (drop 16 broadcom_wifi_ids)) && le_version (version 20 0 0) macos)

-- The branches for the cards that are neither Broadcom nor Intel Wi-Fi.
unfoldable pub ethernet_card_kexts : Version → String → List String
ethernet_card_kexts macos device_id =
    if elem device_id (take 8 atheros_wifi_ids)
    then "corecaptureElCap" ∷ when (lt_version (version 20 99 99) macos) ("AMFIPass" ∷ [])
    else if elem device_id intel_i22x_ids
    then "AppleIGC" ∷ []
    else if elem device_id atheros_e2200_ids
    then "AtherosE2200Ethernet" ∷ []
    else if elem device_id intel_mausi_ids
    then "IntelMausiEthernet" ∷ []
    else if elem device_id realtek_rtl8125_ids
    then "LucyRTL8125Ethernet" ∷ []
    else if elem device_id realtek_rtl8100_ids
    then "RealtekRTL8100" ∷ []
    else if elem device_id realtek_rtl8111_ids
    then "RealtekRTL8111" ∷ []
    else if elem device_id apple_igb_ids
    then "AppleIGB" ∷ []
    else if elem device_id broadcom_bcm57xx_ids
    then "CatalinaBCM5701Ethernet" ∷ []
    else if elem device_id intel_x500_ids
    then "IntelLucy" ∷ []
    else []

unfoldable pub card_kexts : Version → String → Asking (List String)
card_kexts macos device_id inputs =
    if fixes_broadcom macos device_id
    then answered ("AirportBrcmFixup" ∷ []) inputs
    else if elem device_id intel_wifi_ids
    then (ask_wifi_option macos inputs >>= itlwm_kexts macos)
    else answered (ethernet_card_kexts macos device_id) inputs

unfoldable pub network_card_kexts : Version → String → Asking (List String)
network_card_kexts macos device_id inputs = card_kexts macos device_id inputs >>= λ names inputs'.
    answered
      (when (elem device_id broadcom_wifi_ids && le_version (version 23 0 0) macos)
          ("IOSkywalkFamily" ∷ [])
        ++ names)
      inputs'

unfoldable pub network_kexts : Version → Dict Device → Asking (List String)
network_kexts macos [] inputs = answered [] inputs
network_kexts macos ((_, d) ∷ ds) inputs =
    network_card_kexts macos d.device_id inputs >>= λ names inputs'.
    network_kexts macos ds inputs' >>= λ rest inputs''. answered (names ++ rest) inputs''

-- `all(network_props.get("Bus Type") == "USB")`, which holds without network devices.
unfoldable pub null_ethernet_kexts : Dict Device → List String
null_ethernet_kexts ds = when (all (λ d. str_eq d.1.bus_type "USB") ds) ("NullEthernet" ∷ [])

-- The last test looks for the ID in the last text of the list.
unfoldable pub bluetooth_device_kexts : String → List String
bluetooth_device_kexts usb_id =
    if elem usb_id atheros_bluetooth_ids
    then "Ath3kBT" ∷ "Ath3kBTInjector" ∷ []
    else if elem usb_id broadcom_bluetooth_ids
    then "BrcmFirmwareData" ∷ []
    else if elem usb_id intel_bluetooth_ids
    then "IntelBluetoothFirmware" ∷ []
    else if includes (last_text bluetooth_ids) usb_id
    then "BlueToolFixup" ∷ []
    else []

unfoldable pub bluetooth_kexts_for : Dict Device → List String
unfolding bluetooth_device_kexts
bluetooth_kexts_for [] = []
bluetooth_kexts_for ((_, d) ∷ ds) = bluetooth_device_kexts d.device_id ++ bluetooth_kexts_for ds

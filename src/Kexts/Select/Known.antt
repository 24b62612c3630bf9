-- ===== src/Kexts/Select/Known.antt =====
-- Every kext that is selected is one of the table.
use freaky_ocs.Base.{
  ℕ, String, refl, Bool, true, false, Option, none, some, List, [], ◌∷◌, ◌++◌, arith, if◌then◌else◌,
  elem, includes, str_eq, starts_with, index_of, drop,
}
use freaky_ocs.Base.Dict.{Dict}
use freaky_ocs.Darwin.{Version, version, lt_version}
use freaky_ocs.Report.{Device, Report, listed_system_devices}
use freaky_ocs.PciData.System.{input_ids}
use freaky_ocs.PciData.Controllers.{realtek_card_reader_ids, unsupported_sata_controller_ids}
use freaky_ocs.Kexts.Data.{kexts, index_by_name}
use freaky_ocs.Kexts.Known.{Known, append-Known, when-Known, table, table_cons}
use freaky_ocs.Kexts.Select.System.{
  when, is_laptop_board, board_kexts, processor_kexts, clock_kexts, power_kexts,
}
use freaky_ocs.Kexts.Select.Network.{
  ethernet_card_kexts, bluetooth_device_kexts, bluetooth_kexts_for, null_ethernet_kexts,
}
use freaky_ocs.Kexts.Select.{device_kexts}
use freaky_ocs.Kexts.Select.Devices.{
  i2c_kexts, input_device_kexts, input_kexts_for, laptop_kexts, system_device_kexts,
  card_reader_kexts_for, storage_controller_kexts, storage_kexts_for, usb_controller_kexts,
  usb_kexts_for,
}

pub board_kexts-Known : (r : Report) (macos : Version) → Known (board_kexts r macos)
unfolding board_kexts index_by_name kexts
board_kexts-Known r macos = table_cons refl (
    append-Known (when-Known _ (table refl)) (
      append-Known
        (when-Known _ (table_cons refl (append-Known (when-Known _ (table refl)) (table refl))))
        (when-Known _ (table refl))))

pub processor_kexts-Known : (r : Report) (macos : Version) → Known (processor_kexts r macos)
unfolding processor_kexts index_by_name kexts
processor_kexts-Known r macos =
    append-Known (when-Known _ (table refl))
      (append-Known (when-Known _ (table refl)) (when-Known _ (table refl)))

pub clock_kexts-Known :
    (r : Report) (needs_oclp : Bool) (selected : List String)
    → Known (clock_kexts r needs_oclp selected)
unfolding clock_kexts index_by_name kexts
clock_kexts-Known r needs_oclp selected =
    append-Known (when-Known _ (table refl))
      (append-Known (when-Known _ (table refl)) (when-Known _ (table refl)))

power_kexts-Known : (r : Report) → Known (power_kexts r)
unfolding power_kexts index_by_name kexts
power_kexts-Known r = append-Known (when-Known _ (table refl)) (when-Known _ (table refl))

pub ethernet_card_kexts-Known :
    (macos : Version) (id : String) → Known (ethernet_card_kexts macos id)
unfolding ethernet_card_kexts index_by_name kexts
ethernet_card_kexts-Known macos id =
    let atheros : Known
        ("corecaptureElCap" ∷ when (lt_version (version 20 99 99) macos) ("AMFIPass" ∷ [])) =
      table_cons refl (when-Known _ (table refl)) in
    let igc : Known ("AppleIGC" ∷ []) = table refl in
    let e2200 : Known ("AtherosE2200Ethernet" ∷ []) = table refl in
    let mausi : Known ("IntelMausiEthernet" ∷ []) = table refl in
    let lucy : Known ("LucyRTL8125Ethernet" ∷ []) = table refl in
    let rtl8100 : Known ("RealtekRTL8100" ∷ []) = table refl in
    let rtl8111 : Known ("RealtekRTL8111" ∷ []) = table refl in
    let igb : Known ("AppleIGB" ∷ []) = table refl in
    let bcm : Known ("CatalinaBCM5701Ethernet" ∷ []) = table refl in
    let x500 : Known ("IntelLucy" ∷ []) = table refl in
    record {
      known = ground (
        arith, atheros.known, igc.known, e2200.known, mausi.known, lucy.known, rtl8100.known,
        rtl8111.known, igb.known, bcm.known, x500.known,
      );
    }

bluetooth_device_kexts-Known : (id : String) → Known (bluetooth_device_kexts id)
unfolding bluetooth_device_kexts index_by_name kexts
bluetooth_device_kexts-Known id =
    let ath3k : Known ("Ath3kBT" ∷ "Ath3kBTInjector" ∷ []) = table refl in
    let brcm : Known ("BrcmFirmwareData" ∷ []) = table refl in
    let intel : Known ("IntelBluetoothFirmware" ∷ []) = table refl in
    let fixup : Known ("BlueToolFixup" ∷ []) = table refl in
    record { known = ground (arith, ath3k.known, brcm.known, intel.known, fixup.known) }

bluetooth_kexts_for-Known : (ds : Dict Device) → Known (bluetooth_kexts_for ds)
unfolding bluetooth_kexts_for
bluetooth_kexts_for-Known [] = record { known = refl }
bluetooth_kexts_for-Known ((_, d) ∷ ds) =
    append-Known (bluetooth_device_kexts-Known d.device_id) (bluetooth_kexts_for-Known ds)

i2c_kexts-Known : (index : Option ℕ) → Known (i2c_kexts index)
unfolding index_by_name kexts
i2c_kexts-Known none = record { known = refl }
i2c_kexts-Known (some i) =
    let alps : Known ("AlpsHID" ∷ []) = table refl in
    let rmi : Known ("VoodooRMI" ∷ []) = table refl in
    record { known = ground (arith, alps.known, rmi.known) }

synaptics-Known : (b c : Bool) → Known (if b then "VoodooRMI" ∷ [] else when c ("VoodooSMBus" ∷ []))
unfolding index_by_name kexts
synaptics-Known true c = table refl
synaptics-Known false c = when-Known _ (table refl)

input_device_kexts-Known : (d : Device) (device : String) → Known (input_device_kexts d device)
unfolding input_device_kexts index_by_name kexts
input_device_kexts-Known d device =
    append-Known (when-Known _ (table_cons refl (synaptics-Known (starts_with device "SYN") _)))
      (when-Known _ (table_cons refl (i2c_kexts-Known (index_of device input_ids))))

named_input-Known : (b : Bool) (xs : List String) → Known xs → Known (if b then [] else xs)
named_input-Known true xs h = record { known = refl }
named_input-Known false xs h = h

input_kexts_for-Known : (ds : Dict Device) → Known (input_kexts_for ds)
unfolding input_kexts_for
input_kexts_for-Known [] = record { known = refl }
input_kexts_for-Known ((_, d) ∷ ds) =
    elim d.device
      as (λ x. Known (elim x [
        | none ↦ input_kexts_for ds
        | some device ↦
            (if str_eq device "" then [] else input_device_kexts d device) ++ input_kexts_for ds
      ])) [
        | none ↦ input_kexts_for-Known ds
        | some device ↦
            append-Known
              (named_input-Known (str_eq device "") _ (input_device_kexts-Known d device))
              (input_kexts_for-Known ds)
      ]

storage_controller_kexts-Known :
    (r : Report) (macos : Version) (name : String) (d : Device)
    → Known (storage_controller_kexts r macos name d)
unfolding storage_controller_kexts index_by_name kexts
storage_controller_kexts-Known r macos name d =
    let nvme : Known ("NVMeFix" ∷ []) = table refl in
    let ctlna : (b : Bool) → Known (when b ("CtlnaAHCIPort" ∷ [])) =
      λ b. when-Known _ (table refl) in
    let sata : (b : Bool) → Known (when b ("SATA-unsupported" ∷ [])) =
      λ b. when-Known _ (table refl) in
    let newer = ctlna (elem d.device_id unsupported_sata_controller_ids) in
    let older = sata (elem d.device_id (drop 15 unsupported_sata_controller_ids)) in
    record { known = ground (arith, nvme.known, newer.known, older.known) }

storage_kexts_for-Known :
    (r : Report) (macos : Version) (ds : Dict Device) → Known (storage_kexts_for r macos ds)
unfolding storage_kexts_for
storage_kexts_for-Known r macos [] = record { known = refl }
storage_kexts_for-Known r macos ((name, d) ∷ ds) =
    append-Known (storage_controller_kexts-Known r macos name d)
      (storage_kexts_for-Known r macos ds)

system_device_kexts-Known : (ds : Dict Device) → Known (system_device_kexts ds)
unfolding system_device_kexts index_by_name kexts
system_device_kexts-Known [] = record { known = refl }
system_device_kexts-Known ((_, d) ∷ ds) =
    append-Known (when-Known _ (table refl)) (system_device_kexts-Known ds)

card_reader-Known : (b : Bool) → Known (if b then "Sinetek-rtsx" ∷ [] else "RealtekCardReader" ∷ [])
unfolding index_by_name kexts
card_reader-Known true = table refl
card_reader-Known false = table refl

card_reader_kexts_for-Known : (ds : Dict Device) → Known (card_reader_kexts_for ds)
unfolding card_reader_kexts_for
card_reader_kexts_for-Known [] = record { known = refl }
card_reader_kexts_for-Known ((_, d) ∷ ds) =
    append-Known
      (when-Known _ (card_reader-Known (elem d.device_id (drop 5 realtek_card_reader_ids))))
      (card_reader_kexts_for-Known ds)

usb_controller_kexts-Known : (r : Report) (d : Device) → Known (usb_controller_kexts r d)
unfolding usb_controller_kexts index_by_name kexts
usb_controller_kexts-Known r d =
    let generic : Known (when (is_laptop_board r) ("GenericUSBXHCI" ∷ [])) =
      when-Known _ (table refl) in
    let unsupported : Known ("XHCI-unsupported" ∷ []) = table refl in
    record { known = ground (arith, generic.known, unsupported.known) }

usb_kexts_for-Known : (r : Report) (ds : Dict Device) → Known (usb_kexts_for r ds)
unfolding usb_kexts_for
usb_kexts_for-Known r [] = record { known = refl }
usb_kexts_for-Known r ((_, d) ∷ ds) =
    append-Known (usb_controller_kexts-Known r d) (usb_kexts_for-Known r ds)

laptop_kexts-Known : (r : Report) → Known (laptop_kexts r)
unfolding laptop_kexts index_by_name kexts
laptop_kexts-Known r =
    let surface : Known ("BigSurface" ∷ []) = table refl in
    let others : Known (
        when (includes r.motherboard_name "ASUS") ("AsusSMC" ∷ [])
        ++ ("BrightnessKeys" ∷ input_kexts_for r.input)) =
      append-Known (when-Known _ (table refl)) (table_cons refl (input_kexts_for-Known r.input)) in
    record { known = ground (arith, surface.known, others.known) }

pub device_kexts-Known :
    (r : Report) (macos : Version) (batp : Bool) → Known (device_kexts r macos batp)
unfolding device_kexts null_ethernet_kexts index_by_name kexts
device_kexts-Known r macos batp = append-Known (when-Known _ (table refl)) (
    append-Known (bluetooth_kexts_for-Known r.bluetooth) (
      append-Known (laptop_kexts-Known r) (
        append-Known (system_device_kexts-Known (listed_system_devices r)) (
          append-Known (when-Known _ (table refl)) (
            append-Known (card_reader_kexts_for-Known r.sd_controller) (
              append-Known (storage_kexts_for-Known r macos r.storage)
                (append-Known (usb_kexts_for-Known r r.usb_controllers) (power_kexts-Known r))))))))

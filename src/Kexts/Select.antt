-- ===== src/Kexts/Select.antt =====
-- `select_required_kexts`: Scripts/kext_maestro.py. The checked BATP patch of ACPIGuru is a
-- parameter.
pub mod System
pub mod Graphics
pub mod Network
pub mod Devices
pub mod Known
pub mod Bluetooth
pub mod Answers
pub mod Total
use freaky_ocs.Base.{
  ℕ, String, Bool, true, false, Option, none, some, List, [], ◌∷◌, ◌++◌, get_elem?,
}
use freaky_ocs.Darwin.{Version}
use freaky_ocs.Report.{Report, listed_system_devices}
use freaky_ocs.Kexts.Info.{KextInfo}
use freaky_ocs.Kexts.Data.{kexts, index_by_name}
use freaky_ocs.Kexts.Check.{
  Checks, Checking, done, raised, out_of_fuel, ◌>>=◌ as ◌then_check◌, check_kext,
}
use freaky_ocs.Kexts.Ask.{Asked, answered, Asking, ◌>>=◌}
use freaky_ocs.Kexts.Verify.{verify_names}
use freaky_ocs.Kexts.Select.System.{
  when, board_kexts, SoundChoice, sound_kexts, processor_kexts, clock_kexts, power_kexts,
}
use freaky_ocs.Kexts.Select.Graphics.{gpu_kexts}
use freaky_ocs.Kexts.Select.Network.{network_kexts, null_ethernet_kexts, bluetooth_kexts_for}
use freaky_ocs.Kexts.Select.Devices.{
  laptop_kexts, system_device_kexts, card_reader_kexts_for, storage_kexts_for, usb_kexts_for,
}

-- `selected_kexts` and `needs_oclp`.
pub record Picked : Type 0 where
  pub names : List String
  pub needs_oclp : Bool

-- The kexts after the network devices.
unfoldable pub device_kexts : Report → Version → Bool → List String
device_kexts r macos batp =
    null_ethernet_kexts r.network
    ++ (bluetooth_kexts_for r.bluetooth
        ++ (laptop_kexts r
            ++ (system_device_kexts (listed_system_devices r)
                ++ (when batp ("ECEnabler" ∷ [])
                    ++ (card_reader_kexts_for r.sd_controller
                        ++ (storage_kexts_for r macos r.storage
                            ++ (usb_kexts_for r r.usb_controllers ++ power_kexts r)))))))

unfoldable pub pick_kexts : Report → Version → Bool → Bool → Asking Picked
pick_kexts r macos needs_oclp batp inputs =
    sound_kexts macos r.sound needs_oclp inputs >>= λ sound inputs1.
    gpu_kexts macos r.gpu r.gpu inputs1 >>= λ graphics inputs2.
    network_kexts macos r.network inputs2 >>= λ network inputs3.
    (let before = board_kexts r macos ++ (sound.names ++ (processor_kexts r macos ++ graphics)) in
      answered
        (record {
          names =
              before
              ++ (clock_kexts r sound.needs_oclp before ++ (network ++ device_kexts r macos batp));
          needs_oclp = sound.needs_oclp;
        })
        inputs3)

-- `kext.checked = kext.required`
unfoldable pub required_checks : List KextInfo → Checks
required_checks table i = elim (get_elem? table i) [ none ↦ false | some k ↦ k.required ]

-- The last loop; a name that is not in the table is a TypeError. The fuel is more than the depth
-- of the requirements.
unfoldable pub check_names : Version → Bool → List String → Checks → Checking
check_names target allow [] c = done c
check_names target allow (name ∷ names) c = elim (index_by_name kexts name) [
  | none ↦ raised
  | some i ↦ check_kext kexts target allow 8 i c then_check check_names target allow names
]

-- The kexts that are checked, and the returned `needs_oclp`.
pub record Selection : Type 0 where
  pub checking : Checking
  pub needs_oclp : Bool

unfoldable pub select_required_kexts : Report → Version → Bool → Bool → Asking Selection
unfolding check_names required_checks
select_required_kexts r macos needs_oclp batp inputs =
    pick_kexts r macos needs_oclp batp inputs >>= λ picked inputs1.
    verify_names kexts macos picked.names inputs1 >>= λ allow inputs2.
    answered
      (record {
        checking = check_names macos allow picked.names (required_checks kexts);
        needs_oclp = picked.needs_oclp;
      })
      inputs2

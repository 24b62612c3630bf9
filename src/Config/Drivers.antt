-- ===== src/Config/Drivers.antt =====
-- `load_drivers`: Scripts/config_prodigy.py.
pub mod Laws
use freaky_ocs.Base.{
  String, Bool, true, false, not, List, [], ◌∷◌, ◌++◌, drop, elem, str_eq, le_lower, if◌then◌else◌,
}
use freaky_ocs.Darwin.{Version, version, le_version}
use freaky_ocs.CpuData.{intel_cpu_generations}
use freaky_ocs.Kexts.Select.System.{when}

pub record UefiDriver : Type 0 where
  pub arguments : String
  pub comment : String
  pub enabled : Bool
  pub load_early : Bool
  pub path : String

-- Python's stable `sorted(xs, key=lambda x: x.lower())`.
unfoldable pub insert_lower : String → List String → List String
insert_lower x [] = x ∷ []
insert_lower x (y ∷ ys) =
    let rest = insert_lower x ys in if le_lower x y then x ∷ (y ∷ ys) else y ∷ rest

unfoldable pub sort_lower : List String → List String
sort_lower [] = []
sort_lower (x ∷ xs) = insert_lower x (sort_lower xs)

unfoldable pub driver_of : String → UefiDriver
driver_of driver = record {
  arguments = "";
  comment = "";
  enabled = true;
  load_early = false;
  path = driver;
}

unfoldable pub uefi_drivers : List String → List UefiDriver
uefi_drivers [] = []
uefi_drivers (driver ∷ drivers) = driver_of driver ∷ uefi_drivers drivers

unfoldable pub required_drivers : String → String → Version → String → List String
required_drivers firmware_type cpu_codename macos picker_mode =
    ((if not (elem cpu_codename (drop 64 intel_cpu_generations))
        then "HfsPlus.efi"
        else "HfsPlusLegacy.efi")
      ∷ ("OpenRuntime.efi" ∷ ("ResetNvramEntry.efi" ∷ [])))
    ++ (when (not (str_eq firmware_type "UEFI")) ("OpenUsbKbDxe.efi" ∷ [])
        ++ (when (str_eq picker_mode "External") ("OpenCanopy.efi" ∷ [])
            ++ when (le_version (version 25 0 0) macos) ("apfs_aligned.efi" ∷ [])))

unfoldable pub load_drivers : String → String → Version → String → List UefiDriver
load_drivers firmware_type cpu_codename macos picker_mode =
    uefi_drivers (sort_lower (required_drivers firmware_type cpu_codename macos picker_mode))

-- ===== src/Config/Drivers/Laws.antt =====
-- The drivers that `load_drivers` loads, and their order: Scripts/config_prodigy.py.
use freaky_ocs.Base.{
  String, Bool, true, false, not, ◌&&◌, ◌||◌, List, [], ◌∷◌, ◌++◌, drop, ◌≡◌, refl, ap, ◌∙◌, elem,
  distinct, le_lower, str_eq, arith, if◌then◌else◌,
}
use freaky_ocs.Darwin.{Version, version, le_version}
use freaky_ocs.CpuData.{intel_cpu_generations}
use freaky_ocs.Kexts.Select.System.{when}
use freaky_ocs.Config.Drivers.{
  UefiDriver, load_drivers, uefi_drivers, sort_lower, insert_lower, driver_of, required_drivers,
}

unfoldable pub paths : List UefiDriver → List String
paths [] = []
paths (d ∷ ds) = d.path ∷ paths ds

unfoldable pub in_order : List String → Bool
in_order [] = true
in_order (x ∷ []) = true
in_order (x ∷ (y ∷ ys)) = le_lower x y && in_order (y ∷ ys)

paths-uefi_drivers : (drivers : List String) → paths (uefi_drivers drivers) ≡ drivers
unfolding paths uefi_drivers driver_of
paths-uefi_drivers [] = refl
paths-uefi_drivers (d ∷ ds) = ap (λ rest. d ∷ rest) (paths-uefi_drivers ds)

elem-insert_lower :
    (t x : String) (xs : List String) → elem t (insert_lower x xs) ≡ (str_eq x t || elem t xs)
unfolding elem insert_lower
elem-insert_lower t x [] = refl
elem-insert_lower t x (y ∷ ys) = ground (arith, elem-insert_lower t x ys)

elem-sort_lower : (t : String) (xs : List String) → elem t (sort_lower xs) ≡ elem t xs
unfolding elem sort_lower
elem-sort_lower t [] = refl
elem-sort_lower t (x ∷ xs) =
    ground (arith, elem-insert_lower t x (sort_lower xs), elem-sort_lower t xs)

-- The texts of every choice: the legacy driver, the keyboard, the picker and the file system.
choice : Bool → Bool → Bool → Bool → List String
choice modern keyboard picker aligned =
    ((if modern then "HfsPlus.efi" else "HfsPlusLegacy.efi")
      ∷ ("OpenRuntime.efi" ∷ ("ResetNvramEntry.efi" ∷ [])))
    ++ (when keyboard ("OpenUsbKbDxe.efi" ∷ [])
        ++ (when picker ("OpenCanopy.efi" ∷ []) ++ when aligned ("apfs_aligned.efi" ∷ [])))

-- A property of a Boolean that holds of both.
both : (p : Bool → Bool) → (p true && p false) ≡ true → (b : Bool) → p b ≡ true
both p h true = ground arith
both p h false = ground arith

-- The sorted drivers are in order, none twice.
pub in_good_order : List String → Bool
in_good_order drivers = in_order drivers && distinct drivers

every : (Bool → Bool) → Bool
every p = p true && p false

choice-in_good_order :
    (modern keyboard picker aligned : Bool)
    → in_good_order (sort_lower (choice modern keyboard picker aligned)) ≡ true
unfolding in_good_order every choice in_order distinct elem sort_lower insert_lower le_lower when
choice-in_good_order modern keyboard picker aligned =
    both (λ a. in_good_order (sort_lower (choice modern keyboard picker a)))
      (both (λ c. every (λ a. in_good_order (sort_lower (choice modern keyboard c a))))
        (both (λ b. every (λ c. every (λ a. in_good_order (sort_lower (choice modern b c a)))))
          (both
            (λ m.
              every (λ b. every (λ c. every (λ a. in_good_order (sort_lower (choice m b c a))))))
            refl modern)
          keyboard)
        picker)
      aligned

-- The drivers that load_drivers returns stand in the order of their lower-case names, none twice,
-- and are those that the firmware type, the codename, the macOS version and the picker require.
pub load_drivers-sorted :
    (firmware_type cpu_codename : String) (macos : Version) (picker_mode : String)
    → (in_good_order (paths (load_drivers firmware_type cpu_codename macos picker_mode)) ≡ true)
      × ((t : String)
          → elem t (paths (load_drivers firmware_type cpu_codename macos picker_mode))
            ≡ elem t (required_drivers firmware_type cpu_codename macos picker_mode))
unfolding load_drivers required_drivers choice
load_drivers-sorted firmware_type cpu_codename macos picker_mode =
    let found =
      choice (not (elem cpu_codename (drop 64 intel_cpu_generations)))
        (not (str_eq firmware_type "UEFI")) (str_eq picker_mode "External")
        (le_version (version 25 0 0) macos) in
    (
      ap in_good_order (paths-uefi_drivers (sort_lower found))
          ∙ choice-in_good_order (not (elem cpu_codename (drop 64 intel_cpu_generations)))
              (not (str_eq firmware_type "UEFI")) (str_eq picker_mode "External")
              (le_version (version 25 0 0) macos),
      λ t. ap (elem t) (paths-uefi_drivers (sort_lower found)) ∙ elem-sort_lower t found,
    )

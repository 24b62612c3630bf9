-- ===== src/Tests/Smbios.antt =====
-- The theorems on the choice of the Mac model at a concrete report.
use freaky_ocs.Base.{
  str_eq, ℕ, String, ◌≡◌, ◌⊎◌, Bool, true, Option, none, some, List, [], ◌∷◌, refl, get_elem?,
  starts_with,
}
use freaky_ocs.Darwin.{version}
use freaky_ocs.MacModels.{MacDevice, mac_devices, get_mac_device_by_name}
use freaky_ocs.Smbios.Select.{select_smbios_model}
use freaky_ocs.Smbios.Select.Known.{found, select_smbios_model-found}
use freaky_ocs.Smbios.Customize.{
  returned, exit_program, asking, is_supported, customize_smbios_model,
}
use freaky_ocs.Smbios.Customize.Laws.{menu_of, customize_smbios_model-IsOffered}
use freaky_ocs.Smbios.Customize.Found.{customize_smbios_model-found}
use freaky_ocs.Tests.Sample.{igpu_laptop, uhd_630}

select_smbios_model-found_example :
    (m : String) × (d : MacDevice) × (select_smbios_model igpu_laptop (version 22 0 0) ≡ some m)
    × (get_mac_device_by_name m ≡ some d)
select_smbios_model-found_example =
    select_smbios_model-found igpu_laptop (version 22 0 0) "UHD 630" uhd_630 [] refl

abbrev old : String
old = "iMac19,1"

abbrev preset : String
preset = "MacBookPro15,3"

abbrev taken : String
taken = "MacBookPro15,1"

customize_smbios_model-IsOffered_example :
    (taken ≡ old)
    ⊎ ((taken ≡ preset)
        ⊎ ((index : ℕ) × (d : MacDevice) × (get_elem? mac_devices index ≡ some d)
            × (taken ≡ d.name)
            × (is_supported (menu_of igpu_laptop (version 22 0 0) preset) d ≡ true)
            × (starts_with d.name "MacBook" ≡ str_eq "Laptop" igpu_laptop.platform)))
unfolding customize_smbios_model select_smbios_model freaky_ocs.Smbios.Select.platform_of
    freaky_ocs.Base.includes freaky_ocs.Smbios.Select.integrated_model freaky_ocs.Base.elem
    freaky_ocs.Smbios.Select.coffee_lake_model freaky_ocs.Smbios.Select.fewer_cores
    freaky_ocs.Smbios.Customize.choose_smbios_model freaky_ocs.Smbios.Customize.select_option
    freaky_ocs.Base.parse_int freaky_ocs.Base.strip freaky_ocs.Smbios.Customize.select_index
    mac_devices freaky_ocs.Smbios.Customize.has_index freaky_ocs.Smbios.Customize.is_incompatible
    is_supported freaky_ocs.Darwin.le_version starts_with
    freaky_ocs.Darwin.get_latest_darwin_version
customize_smbios_model-IsOffered_example =
    customize_smbios_model-IsOffered igpu_laptop old (version 22 0 0) preset ("59" ∷ "b" ∷ []) taken
      refl refl refl

customize_smbios_model-found_example :
    (customize_smbios_model igpu_laptop "iMac19,1" (version 22 0 0) ("a" ∷ "1" ∷ []) ≡ exit_program)
    ⊎ ((n : String) × (found (get_mac_device_by_name n) ≡ true)
        × ((customize_smbios_model igpu_laptop "iMac19,1" (version 22 0 0) ("a" ∷ "1" ∷ [])
              ≡ returned n)
            ⊎ ((show_all : Bool) × (customize_smbios_model igpu_laptop "iMac19,1"
                    (version 22 0 0)
                    ("a" ∷ "1" ∷ [])
                  ≡ asking show_all n))))
unfolding get_mac_device_by_name
customize_smbios_model-found_example =
    customize_smbios_model-found igpu_laptop "iMac19,1" (version 22 0 0) ("a" ∷ "1" ∷ []) "UHD 630"
      uhd_630 [] refl refl

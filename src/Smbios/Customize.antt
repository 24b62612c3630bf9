-- ===== src/Smbios/Customize.antt =====
-- `customize_smbios_model`: Scripts/smbios.py. The user's answers are a list; what is printed is
-- not modelled. `asking` is the menu when no answers are left.
pub mod Laws
pub mod Found
use freaky_ocs.Base.{
  ℕ, zero, suc, ◌+◌, String, Bool, true, false, not, ◌&&◌, ◌||◌, ◌==◌, Option, none, some, List, [],
  ◌∷◌, get_elem?, str_eq, starts_with, strip, parse_int, if◌then◌else◌,
}
use freaky_ocs.Darwin.{Version, le_version}
use freaky_ocs.MacModels.{MacDevice, mac_devices}
use freaky_ocs.Report.{Report}
use freaky_ocs.Smbios.Select.{select_smbios_model}

pub data Choice : Type 0 where
  returned : String → Choice
  exit_program : Choice
  raised : Choice
  asking : Bool → String → Choice

-- What stays the same while the menu is shown.
pub record Menu : Type 0 where
  pub default_smbios_model : String
  pub is_laptop : Bool
  pub macos_version : Version

-- `isSupported`
unfoldable pub is_supported : Menu → MacDevice → Bool
is_supported m d =
    le_version d.initial_support m.macos_version
    && le_version m.macos_version d.last_supported_version

-- Whether a model is left out of the menu.
unfoldable pub is_incompatible : Menu → Bool → String → MacDevice → Bool
is_incompatible m show_all selected d =
    not (str_eq m.default_smbios_model d.name || str_eq selected d.name)
    && not show_all
    && (not (is_supported m d)
        || (m.is_laptop && not (starts_with d.name "MacBook"))
        || (not m.is_laptop && starts_with d.name "MacBook"))

-- `incompatible_models_by_index`, for the models from index `i` on.
unfoldable pub incompatible_from : (MacDevice → Bool) → ℕ → List MacDevice → List ℕ
incompatible_from hidden i [] = []
incompatible_from hidden i (d ∷ ds) =
    let rest = incompatible_from hidden (i + 1) ds in if hidden d then i ∷ rest else rest

unfoldable pub has_index : ℕ → List ℕ → Bool
has_index i [] = false
has_index i (j ∷ js) = (j == i) || has_index i js

-- The answer is a number: the model that is selected from then on.
unfoldable pub select_index : Menu → Bool → String → ℕ → String
unfolding incompatible_from
select_index m show_all selected index = elim (get_elem? mac_devices index) [
  | none ↦ selected
  | some d ↦
      if not show_all
        && has_index index (incompatible_from (is_incompatible m show_all selected) 0 mac_devices)
      then selected
      else d.name
]

unfoldable pub select_option : Menu → Bool → String → String → String
select_option m show_all selected option = elim (parse_int (strip option)) [
  | none ↦ selected
  | some zero ↦ selected
  | some (suc index) ↦ select_index m show_all selected index
]

-- `option.lower() == ...`, by the two letters that give it.
abbrev pub is_letter : String → String → String → Bool
is_letter lower upper option = str_eq option lower || str_eq option upper

abbrev pub is_toggle : String → Bool
is_toggle option = is_letter "a" "A" option || is_letter "c" "C" option

unfoldable pub choose_smbios_model : Menu → Bool → String → List String → Choice
choose_smbios_model m show_all selected [] = asking show_all selected
choose_smbios_model m show_all selected (option ∷ options) =
    let toggled = choose_smbios_model m (not show_all) selected options in
    let next = choose_smbios_model m show_all (select_option m show_all selected option) options in
    if is_letter "q" "Q" option
    then exit_program
    else if is_letter "b" "B" option
    then returned selected
    else if is_letter "r" "R" option && not (str_eq selected m.default_smbios_model)
    then returned m.default_smbios_model
    else if is_toggle option
    then toggled
    else next

unfoldable pub customize_smbios_model : Report → String → Version → List String → Choice
customize_smbios_model r selected macos options = elim (select_smbios_model r macos) [
  | none ↦ raised
  | some default ↦
      choose_smbios_model
        (record {
          default_smbios_model = default;
          is_laptop = str_eq "Laptop" r.platform;
          macos_version = macos;
        })
        false selected options
]

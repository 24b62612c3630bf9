-- ===== src/Tests/Kexts.antt =====
-- The theorems on the kexts at concrete inputs, and runs.
use freaky_ocs.Base.{
  String, List, ℕ, ◌≡◌, true, false, not, ◌&&◌, ◌||◌, ◌==◌, some, none, [], ◌∷◌, all, elem,
  last_text, str_eq, get_elem?, map, ◌<>◌, if◌then◌else◌, refl, arith,
}
use freaky_ocs.Darwin.{version}
use freaky_ocs.PciData.Bluetooth.{bluetooth_ids}
use freaky_ocs.Kexts.Data.{kexts, index_by_name}
use freaky_ocs.Kexts.Ask.{Answers}
use freaky_ocs.Kexts.Check.{Checks, Checking, done, raised, out_of_fuel, check_kext, uncheck_with}
use freaky_ocs.Kexts.Total.{allowed_at}
use freaky_ocs.Kexts.Closure.{check_kext-total, requirements_kept}
use freaky_ocs.Kexts.Conflicts.{conflicting, check_kext-displaces}
use freaky_ocs.Kexts.Select.{required_checks, select_required_kexts}
use freaky_ocs.Kexts.Select.Network.{bluetooth_device_kexts}
use freaky_ocs.Kexts.Select.Bluetooth.{bluetooth_device_kexts-last}
use freaky_ocs.Kexts.Select.Total.{Fine, required_checks-is_sound, select_required_kexts-Answers}
use freaky_ocs.Kexts.Menu.{configuring, enter_indices, menu_run}
use freaky_ocs.Kexts.Menu.Laws.{
  is_failed, in_range, enter_indices-failed, state_sound, menu_run_sound,
}
use freaky_ocs.Kexts.Load.{Bundle, Entry, Sorting, Visiting, sorted_to, is_seen, sort_bundles}
use freaky_ocs.Kexts.Load.Order.{libraries_first, count_enabled}
use freaky_ocs.Kexts.Load.Sorted.{is_loaded, sort_bundles-sorted}
use freaky_ocs.Tests.Sample.{laptop}

abbrev start : Checks
start = required_checks kexts

check_kext-total_example :
    (c' : Checks) × (check_kext kexts (version 22 0 0) false 8 25 start ≡ done c')
    × (start 25
          || not (allowed_at kexts (version 22 0 0) false 25)
          || (c' 25 && requirements_kept (version 22 0 0) false start c' 25)
        ≡ true)
check_kext-total_example = check_kext-total (version 22 0 0) false 25 start (omega arith)

select_required_kexts-Answers_example :
    Answers Fine (select_required_kexts laptop (version 22 0 0) false false ("yes" ∷ []))
unfolding freaky_ocs.Darwin.get_macos_name_by_darwin
select_required_kexts-Answers_example =
    select_required_kexts-Answers laptop (version 22 0 0) false false ("yes" ∷ [])
      "macOS Ventura 13" refl

menu_run_sound_example :
    state_sound (menu_run (version 22 0 0) (configuring start) ("12, 44" ∷ "no" ∷ "b" ∷ [])) ≡ true
menu_run_sound_example =
    menu_run_sound (version 22 0 0) ("12, 44" ∷ "no" ∷ "b" ∷ []) (configuring start)
      required_checks-is_sound

enter_indices-failed_example :
    is_failed (enter_indices (version 22 0 0) (some 11 ∷ some 83 ∷ []) start)
    ≡ not (all in_range (some 11 ∷ some 83 ∷ []))
enter_indices-failed_example = enter_indices-failed (version 22 0 0) (some 11 ∷ some 83 ∷ []) start

bluetooth_device_kexts-last_example :
    elem "BlueToolFixup" (bluetooth_device_kexts "33BA-03E9")
    ≡ str_eq "33BA-03E9" (last_text bluetooth_ids)
unfolding elem bluetooth_ids
bluetooth_device_kexts-last_example = bluetooth_device_kexts-last "33BA-03E9" refl

-- NootRX (8) takes the place of WhateverGreen (10).
gpu_kext : Checks
gpu_kext j = j == 10

abbrev after_noot_rx : Checking → Checks
after_noot_rx (done c) = c
after_noot_rx raised = gpu_kext
after_noot_rx out_of_fuel = gpu_kext

check_kext-displaces_example :
    after_noot_rx (check_kext kexts (version 22 0 0) false 8 8 gpu_kext) 10 ≡ false
unfolding check_kext gpu_kext conflicting kexts allowed_at freaky_ocs.Darwin.le_version
    freaky_ocs.Kexts.Check.conflicts index_by_name
check_kext-displaces_example =
    check_kext-displaces kexts (version 22 0 0) false 8 8 10 gpu_kext _ refl refl refl refl

-- Without AlpsHID (44) VoodooI2C (49) is unchecked, which VoodooI2CHID (53) requires as well.
abbrev i2c_set : Checks
i2c_set j = j == 49 || j == 44 || j == 53

i2c_index_runs : index_by_name kexts "VoodooI2C" ≡ some 49
unfolding index_by_name kexts
i2c_index_runs = refl

uncheck_kext_runs :
    elim (get_elem? kexts 44) [ none ↦ true | some k ↦ uncheck_with kexts k 44 i2c_set 49 ] ≡ false
unfolding uncheck_with kexts elem
uncheck_kext_runs = refl

-- WhateverGreen stands before Lilu among the bundles, and requires it.
abbrev bundle : String → String → List String → Bundle
bundle name identifier libraries = record {
  path = name <> ".kext";
  name = name;
  identifier = identifier;
  libraries = libraries;
}

abbrev two_bundles : List Bundle
two_bundles =
    bundle "WhateverGreen" "as.vit9696.WhateverGreen" ("as.vit9696.Lilu" ∷ "com.apple.kpi.bsd" ∷ [])
    ∷ bundle "Lilu" "as.vit9696.Lilu" []
    ∷ []

abbrev rank : ℕ → ℕ
rank i = if i == 0 then 1 else 0

sort_bundles-sorted_example :
    (s : Sorting) × (sort_bundles two_bundles [] (version 22 0 0) 2 ≡ sorted_to s)
    × (libraries_first two_bundles [] [] s.sorted ≡ true)
    × ((id : String) → count_enabled id s.sorted ≡ (if is_seen id s.sorted then 1 else 0))
    × (all (is_loaded [] s.sorted) two_bundles ≡ true)
unfolding freaky_ocs.Kexts.Load.Sorted.is_acyclic freaky_ocs.Kexts.Load.find_bundle
sort_bundles-sorted_example = sort_bundles-sorted two_bundles [] (version 22 0 0) rank 2 refl

abbrev names_of : Visiting → List String
names_of (sorted_to s) = map (λ (e : Entry). e.bundle.name) s.sorted
names_of _ = []

sort_bundles_runs :
    names_of (sort_bundles two_bundles [] (version 22 0 0) 2) ≡ "Lilu" ∷ "WhateverGreen" ∷ []
unfolding sort_bundles freaky_ocs.Kexts.Load.visit elem freaky_ocs.Kexts.Load.is_visited
    freaky_ocs.Kexts.Load.find_bundle freaky_ocs.Kexts.Load.append_bundle
    freaky_ocs.Kexts.Load.adjust freaky_ocs.Kexts.Load.narrow_by
sort_bundles_runs = refl

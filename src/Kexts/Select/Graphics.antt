-- ===== src/Kexts/Select/Graphics.antt =====
-- The kexts for the GPUs: `select_required_kexts` in Scripts/kext_maestro.py.
use freaky_ocs.Base.{
  ℕ, String, Bool, true, false, ◌==◌, List, [], ◌∷◌, ◌++◌, any, elem, includes, str_eq,
  if◌then◌else◌,
}
use freaky_ocs.Base.Dict.{Dict}
use freaky_ocs.Darwin.{Version, version, le_version}
use freaky_ocs.Report.{Device}
use freaky_ocs.Smbios.Select.{gpu_type}
use freaky_ocs.Kexts.Ask.{answered, Asking, ◌>>=◌, ask, chosen_option}

-- The kexts that a round of the loop appends, and whether the loop goes on.
pub record GpuChoice : Type 0 where
  pub names : List String
  pub go_on : Bool

abbrev go : List String → GpuChoice
go names = record { names = names; go_on = true }

abbrev stop : List String → GpuChoice
stop names = record { names = names; go_on = false }

unfoldable pub option_kexts : ℕ → List String
option_kexts option =
    if option == 1 then "NootRX" ∷ [] else if option == 2 then "WhateverGreen" ∷ [] else []

-- The question for a Navi 21 or Navi 23.
unfoldable pub ask_navi_kext : Version → Dict Device → Asking GpuChoice
unfolding option_kexts
ask_navi_kext macos gpus inputs =
    if any (λ g. str_eq g.1.manufacturer "Intel") gpus
    then (ask inputs >>= λ _ inputs'. answered (go []) inputs')
    else (ask inputs >>= λ answer inputs'.
        (let recommended = if le_version (version 25 0 0) macos then 1 else 2 in
          let most = if le_version (version 25 0 0) macos then 3 else 2 in
          answered (go (option_kexts (chosen_option answer recommended most))) inputs'))

unfoldable pub gpu_choice : Version → Dict Device → Device → Asking GpuChoice
gpu_choice macos gpus g inputs =
    if includes (gpu_type g) "Integrated GPU"
    then answered
        (go (if includes g.manufacturer "AMD" then "NootedRed" ∷ [] else "WhateverGreen" ∷ []))
        inputs
    else if includes g.codename "Navi 22"
    then answered (stop ("NootRX" ∷ [])) inputs
    else if elem g.codename ("Navi 21" ∷ "Navi 23" ∷ [])
    then ask_navi_kext macos gpus inputs
    else if le_version (version 25 0 0) macos
    then (ask inputs >>= λ _ inputs'. answered (stop []) inputs')
    else answered (go ("WhateverGreen" ∷ [])) inputs

unfoldable pub gpu_kexts : Version → Dict Device → Dict Device → Asking (List String)
gpu_kexts macos gpus [] inputs = answered [] inputs
gpu_kexts macos gpus ((_, g) ∷ gs) inputs = gpu_choice macos gpus g inputs >>= λ choice inputs'.
    (elim choice.go_on [
      | true ↦ gpu_kexts macos gpus gs inputs' >>= λ rest inputs''.
          answered (choice.names ++ rest) inputs''
      | false ↦ answered choice.names inputs'
    ])

-- ===== src/Kexts/Select/Answers.antt =====
-- The questions of `select_required_kexts` select kexts of the table, and raise nothing.
use freaky_ocs.Base.{
  ℕ, String, ◌≡◌, refl, sym, Bool, true, false, not, some, List, [], ◌∷◌, ◌++◌, if◌then◌else◌,
  if_both, any, elem, includes, str_eq, strip, lower_is, ◌==◌,
}
use mathlib.Core.Path.{subst}
use freaky_ocs.Base.Dict.{Dict}
use freaky_ocs.Darwin.{Version, version, le_version, get_macos_name_by_darwin}
use freaky_ocs.Report.{Device}
use freaky_ocs.PciData.Wireless.{intel_wifi_ids}
use freaky_ocs.Codecs.{codec_layout_ids}
use freaky_ocs.Smbios.Select.{gpu_type}
use freaky_ocs.Kexts.Data.{kexts, index_by_name}
use freaky_ocs.Kexts.Ask.{answered, ◌>>=◌, ask, chosen_option, Answers, Answers-bind}
use freaky_ocs.Kexts.Known.{Known, append-Known, when-Known, table, table_cons}
use freaky_ocs.Kexts.Select.System.{SoundChoice, ask_audio_kext, sound_choice, sound_kexts}
use freaky_ocs.Kexts.Select.Graphics.{GpuChoice, option_kexts, ask_navi_kext, gpu_choice, gpu_kexts}
use freaky_ocs.Kexts.Select.Network.{
  ask_root_patch, wifi_option_on, ask_wifi_option, itlwm_kexts, fixes_broadcom, card_kexts,
  network_card_kexts, network_kexts,
}
use freaky_ocs.Kexts.Select.Known.{ethernet_card_kexts-Known}

abbrev AnyText : String → Type 0
AnyText x = Unit

ask-Answers : (inputs : List String) → Answers AnyText (ask inputs)
ask-Answers [] = tt
ask-Answers (answer ∷ inputs) = tt

abbrev pub KnownSound : SoundChoice → Type 0
KnownSound c = Known c.names

ask_audio_kext-Answers :
    (oclp : Bool) (inputs : List String) → Answers KnownSound (ask_audio_kext oclp inputs)
unfolding ask_audio_kext index_by_name kexts
ask_audio_kext-Answers oclp [] = tt
ask_audio_kext-Answers oclp (answer ∷ inputs) =
    if_both (Answers KnownSound) (str_eq (strip answer) "1") (table refl) (
      if_both (Answers KnownSound) (str_eq (strip answer) "2") (table refl)
        (ask_audio_kext-Answers oclp inputs))

sound_choice-Answers :
    (macos : Version) (d : Device) (oclp : Bool) (inputs : List String)
    → Answers KnownSound (sound_choice macos d oclp inputs)
unfolding sound_choice index_by_name kexts
sound_choice-Answers macos d oclp inputs =
    if_both (Answers KnownSound) (not (elem d.device_id codec_layout_ids)) (table refl) (
      if_both (Answers KnownSound) (le_version (version 25 0 0) macos)
        (ask_audio_kext-Answers oclp inputs) (table refl))

pub sound_kexts-Answers :
    (macos : Version) (ds : Dict Device) (oclp : Bool) (inputs : List String)
    → Answers KnownSound (sound_kexts macos ds oclp inputs)
unfolding sound_kexts
sound_kexts-Answers macos [] oclp inputs = record { known = refl }
sound_kexts-Answers macos ((_, d) ∷ ds) oclp inputs =
    Answers-bind KnownSound KnownSound _ _ (sound_choice-Answers macos d oclp inputs)
      (λ first inputs' h.
        Answers-bind KnownSound KnownSound _ _
          (sound_kexts-Answers macos ds first.needs_oclp inputs')
          (λ rest inputs'' k. append-Known h k))

abbrev KnownChoice : GpuChoice → Type 0
KnownChoice c = Known c.names

option_kexts-Known : (option : ℕ) → Known (option_kexts option)
unfolding option_kexts index_by_name kexts
option_kexts-Known option =
    if_both Known (option == 1) (table refl)
      (if_both Known (option == 2) (table refl) (record { known = refl }))

ask_navi_kext-Answers :
    (macos : Version) (gpus : Dict Device) (inputs : List String)
    → Answers KnownChoice (ask_navi_kext macos gpus inputs)
unfolding ask_navi_kext
ask_navi_kext-Answers macos gpus inputs =
    if_both (Answers KnownChoice) (any (λ g. str_eq g.1.manufacturer "Intel") gpus)
      (Answers-bind AnyText KnownChoice _ _ (ask-Answers inputs)
        (λ _ inputs' _. record { known = refl }))
      (Answers-bind AnyText KnownChoice _ _ (ask-Answers inputs) (λ answer inputs' _.
        option_kexts-Known (
          chosen_option answer (if le_version (version 25 0 0) macos then 1 else 2)
            (if le_version (version 25 0 0) macos then 3 else 2))))

gpu_choice-Answers :
    (macos : Version) (gpus : Dict Device) (g : Device) (inputs : List String)
    → Answers KnownChoice (gpu_choice macos gpus g inputs)
unfolding gpu_choice index_by_name kexts
gpu_choice-Answers macos gpus g inputs =
    if_both (Answers KnownChoice) (includes (gpu_type g) "Integrated GPU")
      (if_both Known (includes g.manufacturer "AMD") (table refl) (table refl))
      (if_both (Answers KnownChoice) (includes g.codename "Navi 22") (table refl) (
        if_both (Answers KnownChoice) (elem g.codename ("Navi 21" ∷ "Navi 23" ∷ []))
          (ask_navi_kext-Answers macos gpus inputs)
          (if_both (Answers KnownChoice) (le_version (version 25 0 0) macos)
            (Answers-bind AnyText KnownChoice _ _ (ask-Answers inputs)
              (λ _ inputs' _. record { known = refl }))
            (table refl))))

pub gpu_kexts-Answers :
    (macos : Version) (gpus gs : Dict Device) (inputs : List String)
    → Answers Known (gpu_kexts macos gpus gs inputs)
unfolding gpu_kexts
gpu_kexts-Answers macos gpus [] inputs = record { known = refl }
gpu_kexts-Answers macos gpus ((_, g) ∷ gs) inputs =
    Answers-bind KnownChoice Known _ _ (gpu_choice-Answers macos gpus g inputs) (λ choice inputs' h.
      elim choice.go_on
        as (λ b. Answers Known (elim b [
          | true ↦ gpu_kexts macos gpus gs inputs' >>= λ rest inputs''.
              answered (choice.names ++ rest) inputs''
          | false ↦ answered choice.names inputs'
        ])) [
          | true ↦
              Answers-bind Known Known _ _ (gpu_kexts-Answers macos gpus gs inputs')
                (λ rest inputs'' k. append-Known h k)
          | false ↦ h
        ])

ask_root_patch-Answers : (inputs : List String) → Answers Known (ask_root_patch inputs)
unfolding ask_root_patch index_by_name kexts
ask_root_patch-Answers [] = tt
ask_root_patch-Answers (answer ∷ inputs) =
    if_both (Answers Known) (lower_is (strip answer) "yes") (table refl) (
      if_both (Answers Known) (lower_is (strip answer) "no") (record { known = refl })
        (ask_root_patch-Answers inputs))

itlwm_kexts-Answers :
    (macos : Version) (option : ℕ) (inputs : List String)
    → Answers Known (itlwm_kexts macos option inputs)
unfolding itlwm_kexts index_by_name kexts
itlwm_kexts-Answers macos option inputs = if_both (Answers Known) (option == 2) (table refl) (
    if_both (Answers Known) (le_version (version 24 0 0) macos) (table refl) (
      if_both (Answers Known) (le_version (version 23 0 0) macos)
        (Answers-bind Known Known _ _ (ask_root_patch-Answers inputs)
          (λ names inputs' h. table_cons refl h))
        (table refl)))

module _ (macos : Version) (name : String)
    (named : get_macos_name_by_darwin macos.major ≡ some name) where
  ask_wifi_option-Answers :
      (inputs : List String) → Answers (λ (option : ℕ). Unit) (ask_wifi_option macos inputs)
  unfolding ask_wifi_option wifi_option_on
  ask_wifi_option-Answers inputs =
      subst (λ n. Answers (λ (option : ℕ). Unit) (wifi_option_on macos n inputs)) (sym named)
        (if_both (Answers (λ (option : ℕ). Unit)) (includes name "Beta")
          (Answers-bind AnyText (λ (option : ℕ). Unit) _ _ (ask-Answers inputs) (λ _ inputs' _. tt))
          (Answers-bind AnyText (λ (option : ℕ). Unit) _ _ (ask-Answers inputs)
            (λ _ inputs' _. tt)))

  card_kexts-Answers :
      (id : String) (inputs : List String) → Answers Known (card_kexts macos id inputs)
  unfolding card_kexts index_by_name kexts
  card_kexts-Answers id inputs = if_both (Answers Known) (fixes_broadcom macos id) (table refl) (
      if_both (Answers Known) (elem id intel_wifi_ids)
        (Answers-bind (λ (option : ℕ). Unit) Known _ _ (ask_wifi_option-Answers inputs)
          (λ option inputs' _. itlwm_kexts-Answers macos option inputs'))
        (ethernet_card_kexts-Known macos id))

  pub network_kexts-Answers :
      (ds : Dict Device) (inputs : List String) → Answers Known (network_kexts macos ds inputs)
  unfolding network_kexts network_card_kexts index_by_name kexts
  network_kexts-Answers [] inputs = record { known = refl }
  network_kexts-Answers ((_, d) ∷ ds) inputs =
      Answers-bind Known Known _ _
        (Answers-bind Known Known _ _ (card_kexts-Answers d.device_id inputs)
          (λ names inputs' h. append-Known (when-Known _ (table refl)) h))
        (λ names inputs' h.
          Answers-bind Known Known _ _ (network_kexts-Answers ds inputs')
            (λ rest inputs'' k. append-Known h k))

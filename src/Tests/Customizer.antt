-- ===== src/Tests/Customizer.antt =====
-- The theorem on the hardware customizer at two GPUs.
use freaky_ocs.Base.{
  String, ◌≡◌, Bool, false, ◌||◌, Option, some, none, List, [], ◌∷◌, All, any, refl,
}
use freaky_ocs.Base.Dict.{Dict, get}
use freaky_ocs.Darwin.{version}
use freaky_ocs.Report.{Device}
use freaky_ocs.Customizer.{needs_patches, customize_devices}
use freaky_ocs.Customizer.Laws.{kept_as, customize_devices_lem}
use freaky_ocs.Tests.Sample.{uhd_630}

abbrev gpus : Dict Device
gpus = ("UHD 630", uhd_630) ∷ ("Old", record uhd_630 { compatibility = some none }) ∷ []

customize_devices_lem_example :
    let result =
      customize_devices "GPU"
        (version 22 0 0)
        gpus
        (record { kept = []; disabled = []; needs_oclp = false }) in
    All (λ ((name, d) : String × Device). get name result.kept ≡ kept_as (version 22 0 0) d) gpus
    × (result.needs_oclp
        ≡ (false || any (λ ((_, d) : String × Device). needs_patches (version 22 0 0) d) gpus))
unfolding freaky_ocs.Base.distinct freaky_ocs.Base.elem freaky_ocs.Base.Dict.keys
customize_devices_lem_example = customize_devices_lem "GPU" (version 22 0 0) gpus [] false refl

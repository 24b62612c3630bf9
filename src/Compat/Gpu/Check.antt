-- ===== src/Compat/Gpu/Check.antt =====
-- The GPU check, second part: the loops of `check_gpu_compatibility` over all GPUs
-- (Scripts/compatibility_checker.py).
use freaky_ocs.Base.{
  String, Bool, true, false, not, ◌&&◌, ◌||◌, Option, none, some, [], ◌∷◌, ◌++◌, any, all, str_eq,
  if◌then◌else◌,
}
use freaky_ocs.Base.Dict.{Dict}
use freaky_ocs.Darwin.{lt_version}
use freaky_ocs.Report.{Range, Device, Monitor, Report, device_eq}
use freaky_ocs.Compat.State.{
  Outcome, next, exit_program, raised, ◌>>=◌, Checker, range, merge_ocl_patched,
}
use freaky_ocs.Compat.Gpu.{assess_gpu, drives}

-- The first loop.
unfoldable pub assess_gpus : Report → Dict Device → Dict Device
assess_gpus r [] = []
assess_gpus r ((name, g) ∷ gpus) = (name, assess_gpu r name g) ∷ assess_gpus r gpus

-- `device.get("Compatibility") == (None, None)`
unfoldable pub is_unsupported : Device → Bool
is_unsupported g = elim g.compatibility [ some none ↦ true | some (some _) ↦ false | none ↦ false ]

-- No GPU with other properties is supported.
unfoldable pub no_other_gpu : Dict Device → Device → Bool
no_other_gpu gpus g = all (λ (_, other). device_eq other g || is_unsupported other) gpus

-- An internal screen that another GPU drives.
unfoldable pub internal_on_other : Dict Monitor → String → Bool
internal_on_other monitors name =
    any (λ (_, m). str_eq m.connector_type "Internal" && not (drives name m)) monitors

abbrev pub demote : Device → Device
demote g = record g { compatibility = some none; oclp = none }

-- The variables of the second loop: max_supported_gpu_version with min_supported_gpu_version, which
-- are set together, and ocl_patched_macos_version.
pub record Tally : Type 0 where
  pub supported : Option Range
  pub ocl_patched : Option Range

-- The widest range so far.
unfoldable pub widen : Option Range → Range → Range
widen none r = r
widen (some t) r =
    range (if lt_version t.max r.max then r.max else t.max)
      (if lt_version r.min t.min then r.min else t.min)

unfoldable pub add_oclp : Tally → Device → Tally
add_oclp t g = elim g.oclp [
  | none ↦ t
  | some o ↦ record t { ocl_patched = some (merge_ocl_patched t.ocl_patched o) }
]

-- `max_version, min_version = gpu_props.get("Compatibility")` and the two assignments below it. With
-- (None, None), `parse_darwin_version(None)` raises once another GPU has been counted.
unfoldable pub count_gpu : Tally → Device → Outcome Tally
count_gpu t g = elim g.compatibility [
  | some (some r) ↦ next (add_oclp (record t { supported = some (widen t.supported r) }) g)
  | some none ↦ elim t.supported [ none ↦ next (add_oclp t g) | some _ ↦ raised ]
  | none ↦ raised
]

-- One round of the second loop, in the GPUs as they are by then.
unfoldable pub settle_gpu : Dict Monitor → Dict Device → String → Device → Device
settle_gpu monitors gpus name g =
    if no_other_gpu gpus g then g else if internal_on_other monitors name then demote g else g

unfoldable pub tally_gpu : Tally → Bool → Device → Outcome Tally
tally_gpu t unsupported g = if unsupported then next (add_oclp t g) else count_gpu t g

-- The second loop; `done` are the GPUs that it has passed.
unfoldable pub settle_gpus :
    Dict Monitor → Dict Device → Dict Device → Tally → Outcome (Dict Device × Tally)
settle_gpus monitors done [] t = next (done, t)
settle_gpus monitors done ((name, g) ∷ rest) t =
    let g' =
      if is_unsupported g then g else settle_gpu monitors (done ++ (name, g) ∷ rest) name g in
    tally_gpu t (is_unsupported g) g' >>= λ t'.
    settle_gpus monitors (done ++ (name, g') ∷ []) rest t'

-- `max_native = max if max < max_native else max_native`, and the same for the minimum.
unfoldable pub narrow : Range → Range → Range
narrow supported native =
    range (if lt_version supported.max native.max then supported.max else native.max)
      (if lt_version native.min supported.min then supported.min else native.min)

-- The end of the check: no supported GPU, or the native range narrowed.
unfoldable pub finish_gpus : Checker → Dict Device × Tally → Outcome Checker
finish_gpus s (gpus, t) = elim t.supported [
  | none ↦ exit_program
  | some r ↦ elim s.native [
    | none ↦ raised
    | some native ↦ next (record s {
      report = record s.report { gpu = gpus };
      native = some (narrow r native);
      ocl_patched = t.ocl_patched;
    })
  ]
]

unfoldable pub check_gpu_compatibility : Checker → Outcome Checker
check_gpu_compatibility s = elim s.report.gpu [
  | [] ↦ exit_program
  | gpu ∷ gpus ↦
      settle_gpus s.report.monitor [] (assess_gpus s.report (gpu ∷ gpus))
        (record { supported = none; ocl_patched = s.ocl_patched })
      >>= finish_gpus s
]

-- ===== src/Compat/Gpu/Vga.antt =====
-- The test for monitors on VGA, of a report that lists no monitor.
use freaky_ocs.Base.{
  ◌≡◌, Bool, true, ◌&&◌, none, [], ◌∷◌, ◌++◌, arith, all, refl, includes, starts_with_any,
  drop_chars, ◌∙◌,
}
use freaky_ocs.Base.Dict.{Dict}
use freaky_ocs.Report.{Device, Monitor, Report}
use freaky_ocs.Compat.State.{next, exit_program, Checker}
use freaky_ocs.Compat.Gpu.{assess_gpu, only_vga}
use freaky_ocs.Compat.Gpu.Hull.{supported-add_oclp}
use freaky_ocs.Compat.Gpu.Check.{
  Tally, is_unsupported, assess_gpus, add_oclp, tally_gpu, settle_gpus, finish_gpus,
  check_gpu_compatibility,
}

-- An Intel GPU whose device ID begins with 01, 04, 0A, 0C or 0D.
abbrev pub is_older_intel : Device → Bool
is_older_intel g =
    includes g.manufacturer "Intel"
    && starts_with_any (drop_chars 5 g.device_id) ("01" ∷ "04" ∷ "0A" ∷ "0C" ∷ "0D" ∷ [])

assess_gpus-unsupported :
    (r : Report) (gpus : Dict Device)
    → r.monitor ≡ []
    → all (λ (_, g). is_older_intel g) gpus ≡ true
    → all (λ (_, g). is_unsupported g) (assess_gpus r gpus) ≡ true
unfolding assess_gpus assess_gpu only_vga is_unsupported
assess_gpus-unsupported r [] no_monitor old = refl
assess_gpus-unsupported r ((name, g) ∷ gpus) no_monitor old =
    ground (arith, assess_gpus-unsupported r gpus)

-- The second loop passes unsupported GPUs without counting any.
settle_gpus-none :
    (monitors : Dict Monitor) (done todo : Dict Device) (t : Tally)
    → all (λ (_, g). is_unsupported g) todo ≡ true
    → t.supported ≡ none
    → (gpus : Dict Device) × (u : Tally) × (settle_gpus monitors done todo t ≡ next (gpus, u))
      × (u.supported ≡ none)
unfolding settle_gpus tally_gpu
settle_gpus-none monitors done [] t off h = (done, t, refl, h)
settle_gpus-none monitors done ((name, g) ∷ rest) t off h =
    let (gpus, u, e, none_left) =
      settle_gpus-none monitors (done ++ (name, g) ∷ []) rest (add_oclp t g) (ground arith)
        (supported-add_oclp t g ∙ h) in
    (gpus, u, ground arith, none_left)

-- In a report without monitors whose GPUs are all Intel ones with a device ID that begins with 01,
-- 04, 0A, 0C or 0D, the GPU check leaves the program, whatever the ranges of the GPUs are: all of no
-- monitors are on VGA.
pub check_gpu_compatibility-no_monitors :
    (s : Checker)
    → s.report.monitor ≡ []
    → all (λ (_, g). is_older_intel g) s.report.gpu ≡ true
    → check_gpu_compatibility s ≡ exit_program
unfolding check_gpu_compatibility finish_gpus
check_gpu_compatibility-no_monitors s no_monitor old = left s.report.gpu refl
  where
    left : (gpus : Dict Device) → s.report.gpu ≡ gpus → check_gpu_compatibility s ≡ exit_program
    left [] e = ground arith
    left (gpu ∷ gpus) e =
        let start : Tally = record { supported = none; ocl_patched = s.ocl_patched } in
        let off = assess_gpus-unsupported s.report (gpu ∷ gpus) no_monitor (rw e at old) in
        let (settled, u, loops, none_left) =
          settle_gpus-none s.report.monitor [] (assess_gpus s.report (gpu ∷ gpus)) start off refl in
        ground arith

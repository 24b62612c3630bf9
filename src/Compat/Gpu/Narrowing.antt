-- ===== src/Compat/Gpu/Narrowing.antt =====
-- What the GPU check promises when it returns.
use freaky_ocs.Base.{◌≡◌, inl, inr, none, some, [], ◌∷◌, arith, refl, All, Option-cases}
use freaky_ocs.Base.Dict.{Dict}
use freaky_ocs.Report.{Range, Device}
use freaky_ocs.Compat.State.{next, Checker, >>=-eq-next}
use freaky_ocs.Compat.Gpu.Hull.{Within, Within-narrow, InHull, All-InHull, settle_gpus-IsCounted}
use freaky_ocs.Compat.Gpu.Attained.{Attained, settle_gpus-Attained}
use freaky_ocs.Compat.Gpu.Check.{
  Tally, narrow, assess_gpus, settle_gpus, finish_gpus, check_gpu_compatibility,
}

finish_gpus-eq-next :
    (s : Checker) (gpus : Dict Device) (u : Tally) {t : Checker}
    → finish_gpus s (gpus, u) ≡ next t
    → (before : Range) × (hull : Range) × (s.native ≡ some before)
      × (u.supported ≡ some hull)
      × (t.native ≡ some (narrow hull before))
      × (t.report.gpu ≡ gpus)
unfolding finish_gpus
finish_gpus-eq-next s gpus u h = elim (Option-cases s.native) [
  | inl no_cpu ↦ absurd (ground arith)
  | inr (before, e) ↦ elim (Option-cases u.supported) [
    | inl no_gpu ↦ absurd (ground arith)
    | inr (hull, e') ↦ (before, hull, e, e', ground arith, ground arith)
  ]
]

pub check_gpu_compatibility-narrows :
    (s t : Checker)
    → check_gpu_compatibility s ≡ next t
    → (before : Range) × (hull : Range) × (s.native ≡ some before)
      × (t.native ≡ some (narrow hull before))
      × Within (narrow hull before) before
      × All (λ (_, g). InHull (some hull) g.compatibility) t.report.gpu
      × Attained t.report.gpu (some hull)
unfolding check_gpu_compatibility
check_gpu_compatibility-narrows s t h = narrowed s.report.gpu refl
  where
    narrowed :
        (gpus : Dict Device)
        → s.report.gpu ≡ gpus
        → (before : Range) × (hull : Range) × (s.native ≡ some before)
          × (t.native ≡ some (narrow hull before))
          × Within (narrow hull before) before
          × All (λ (_, g). InHull (some hull) g.compatibility) t.report.gpu
          × Attained t.report.gpu (some hull)
    narrowed [] e = absurd (ground arith)
    narrowed (gpu ∷ gpus) e =
        let start : Tally = record { supported = none; ocl_patched = s.ocl_patched } in
        let assessed = assess_gpus s.report (gpu ∷ gpus) in
        let ((settled, u), loops, finished) =
          >>=-eq-next (settle_gpus s.report.monitor [] assessed start) (finish_gpus s)
            (rw (e, check_gpu_compatibility) at h) in
        let (before, hull, native, supported, narrowed, kept) =
          finish_gpus-eq-next s settled u finished in
        (
          before,
          hull,
          native,
          narrowed,
          Within-narrow hull before,
          rw kept (
              All-InHull (some hull) settled (
                rw supported at
                  (settle_gpus-IsCounted s.report.monitor [] assessed start tt loops))),
          rw kept
              (rw supported at (settle_gpus-Attained s.report.monitor [] assessed start tt loops)),
        )

-- ===== src/Compat/Gpu/Demotion.antt =====
-- A supported GPU that the second loop of the GPU check demotes after it has counted another.
use freaky_ocs.Base.{String, ◌≡◌, true, false, Option, none, some, [], ◌∷◌, arith, refl}
use freaky_ocs.Base.Dict.{Dict}
use freaky_ocs.Report.{Range, Compatibility, Device, Monitor, Report, device_eq}
use freaky_ocs.Compat.State.{next, raised, Checker}
use freaky_ocs.Compat.Gpu.{assess_gpu}
use freaky_ocs.Compat.Gpu.Hull.{supported-add_oclp}
use freaky_ocs.Compat.Gpu.Check.{
  Tally, widen, assess_gpus, is_unsupported, internal_on_other, settle_gpu, no_other_gpu, add_oclp,
  count_gpu, tally_gpu, settle_gpus, check_gpu_compatibility, demote,
}

-- A GPU after the first loop, supported.
abbrev IsSupported : Device → Type 0
IsSupported g = (r : Range) × (g.compatibility ≡ some (some r))

assess_gpu-IsSupported :
    (r : Report) (name : String) (g : Device)
    → is_unsupported (assess_gpu r name g) ≡ false
    → IsSupported (assess_gpu r name g)
unfolding assess_gpu is_unsupported
assess_gpu-IsSupported r name g h = supported (assess_gpu r name g).compatibility refl
  where
    supported :
        (c : Option Compatibility)
        → (assess_gpu r name g).compatibility ≡ c
        → IsSupported (assess_gpu r name g)
    supported none e = absurd (ground arith)
    supported (some none) e = absurd (ground arith)
    supported (some (some range)) e = (range, e)

module _ (monitors : Dict Monitor) (first second : String) (a b : Device) (rest : Dict Device) where
  -- The first keeps its range.
  settle_gpu_first :
      internal_on_other monitors first ≡ false
      → settle_gpu monitors ((first, a) ∷ (second, b) ∷ rest) first a ≡ a
  unfolding settle_gpu
  settle_gpu_first h = ground arith

  -- The second loses it, since the first is supported and is another GPU.
  settle_gpu_second :
      device_eq a b ≡ false
      → is_unsupported a ≡ false
      → internal_on_other monitors second ≡ true
      → settle_gpu monitors ((first, a) ∷ (second, b) ∷ rest) second b ≡ demote b
  unfolding settle_gpu no_other_gpu
  settle_gpu_second e h k = ground arith

  tally_gpu_supported :
      (t : Tally) (r : Range)
      → a.compatibility ≡ some (some r)
      → tally_gpu t false a
        ≡ next (add_oclp (record t { supported = some (widen t.supported r) }) a)
  unfolding tally_gpu count_gpu
  tally_gpu_supported t r e = ground arith

  tally_gpu-demote :
      (t : Tally) (r : Range) → t.supported ≡ some r → tally_gpu t false (demote b) ≡ raised
  unfolding tally_gpu count_gpu
  tally_gpu-demote t r e = ground arith

  settle_gpus-raises :
      (t : Tally) (r : Range)
      → a.compatibility ≡ some (some r)
      → is_unsupported a ≡ false
      → is_unsupported b ≡ false
      → device_eq a b ≡ false
      → internal_on_other monitors first ≡ false
      → internal_on_other monitors second ≡ true
      → settle_gpus monitors [] ((first, a) ∷ (second, b) ∷ rest) t ≡ raised
  unfolding settle_gpus
  settle_gpus-raises t r e ha hb differ stay leave =
      let t' = add_oclp (record t { supported = some (widen t.supported r) }) a in
      ground (
        arith,
        settle_gpu_first stay,
        settle_gpu_second differ ha leave,
        tally_gpu_supported t r e,
        supported-add_oclp (record t { supported = some (widen t.supported r) }) a,
        tally_gpu-demote t' (widen t.supported r),
      )

-- Where the first two GPUs of a report are supported and differ, and an internal screen is driven
-- by the first, the check does not return: it has counted the first GPU, takes the second one's
-- support away, and then compares the versions (None, None) of the second.
pub check_gpu_compatibility-raises :
    (s : Checker) (first second : String) (a b : Device) (rest : Dict Device)
    → s.report.gpu ≡ (first, a) ∷ (second, b) ∷ rest
    → is_unsupported (assess_gpu s.report first a) ≡ false
    → is_unsupported (assess_gpu s.report second b) ≡ false
    → device_eq (assess_gpu s.report first a) (assess_gpu s.report second b) ≡ false
    → internal_on_other s.report.monitor first ≡ false
    → internal_on_other s.report.monitor second ≡ true
    → check_gpu_compatibility s ≡ raised
unfolding check_gpu_compatibility assess_gpus
check_gpu_compatibility-raises s first second a b rest e ha hb differ stay leave =
    let (r, supported) = assess_gpu-IsSupported s.report first a ha in
    rw (
      e,
      check_gpu_compatibility,
      settle_gpus-raises s.report.monitor first second (assess_gpu s.report first a)
          (assess_gpu s.report second b) (assess_gpus s.report rest)
          (record { supported = none; ocl_patched = s.ocl_patched }) r supported ha hb differ stay
          leave,
    )

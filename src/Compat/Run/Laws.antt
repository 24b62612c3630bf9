-- ===== src/Compat/Run/Laws.antt =====
-- What the whole compatibility check promises.
use freaky_ocs.Base.{◌≡◌, Option, none, some, [], ◌∷◌, arith, refl, sym, ◌∙◌}
use mathlib.Core.Path.{subst}
use freaky_ocs.Base.Dict.{Dict}
use freaky_ocs.Report.{Range, Device, Report}
use freaky_ocs.Compat.State.{Outcome, next, raised, Checker, ◌>>=◌, >>=-eq-next}
use freaky_ocs.Compat.Cpu.{check_cpu_compatibility, cpu_compatibility}
use freaky_ocs.Compat.Gpu.Check.{check_gpu_compatibility}
use freaky_ocs.Compat.Devices.{
  check_sound_compatibility, check_biometric_compatibility, check_network_compatibility,
}
use freaky_ocs.Compat.Storage.{
  check_storage_compatibility, check_bluetooth_compatibility, check_sd_controller_compatibility,
}
use freaky_ocs.Compat.Run.{step, check_devices, check_compatibility}
use freaky_ocs.Compat.Run.Bare.{
  Keeps, bare_report, check_cpu-Keeps, check_gpu-Keeps, check_sound-Keeps, check_biometric-Keeps,
  check_network-Keeps, check_storage-Keeps, check_bluetooth-Keeps, check_sd-Keeps,
}

step-Keeps :
    (devices : Report → Dict Device) (check : Checker → Outcome Checker)
    → Keeps check
    → Keeps (step devices check)
step-Keeps devices check keeps s t h = kept (devices s.report) refl
  where
    kept : (ds : Dict Device) → devices s.report ≡ ds → bare_report t.report ≡ bare_report s.report
    kept [] e = ground arith
    kept (d ∷ ds) e = ground (arith, keeps s t)

bind-Keeps :
    (m : Outcome Checker) (check : Checker → Outcome Checker) (r : Report)
    → ((u : Checker) → m ≡ next u → bare_report u.report ≡ r)
    → Keeps check
    → (t : Checker) → (m >>= check) ≡ next t
    → bare_report t.report ≡ r
bind-Keeps m check r before keeps t h =
    let (u, first, second) = >>=-eq-next m check h in keeps u t second ∙ before u first

check_devices-Keeps : Keeps check_devices
unfolding check_devices
check_devices-Keeps s =
    bind-Keeps _ _ (bare_report s.report)
      (bind-Keeps _ _ (bare_report s.report)
        (bind-Keeps _ _ (bare_report s.report)
          (bind-Keeps _ _ (bare_report s.report)
            (bind-Keeps _ _ (bare_report s.report)
              (bind-Keeps _ _ (bare_report s.report) (step-Keeps (λ r. r.gpu) _ check_gpu-Keeps s)
                (step-Keeps (λ r. r.sound) _ check_sound-Keeps))
              (step-Keeps (λ r. r.biometric) _ check_biometric-Keeps))
            (step-Keeps (λ r. r.network) _ check_network-Keeps))
          (step-Keeps (λ r. r.storage) _ check_storage-Keeps))
        (step-Keeps (λ r. r.bluetooth) _ check_bluetooth-Keeps))
      (step-Keeps (λ r. r.sd_controller) _ check_sd-Keeps)

-- The compatibility check adds to the report and changes nothing in it: when it returns, the report
-- without the keys "Compatibility" and "OCLP Compatibility" is the one that was checked, with every
-- device of every class in its place.
pub check_compatibility-bare :
    (r t : Report) (native : Range) (ocl : Option Range)
    → check_compatibility r ≡ next (t, native, ocl)
    → bare_report t ≡ bare_report r
unfolding check_compatibility
check_compatibility-bare r t native ocl h =
    let start : Checker = record { report = r; native = none; ocl_patched = none } in
    let (u, checks, result) =
      >>=-eq-next (check_cpu_compatibility start >>= check_devices)
        (λ s. elim s.native [
          | none ↦ raised
          | some native ↦ next (s.report, native, s.ocl_patched)
        ])
        h in
    let (v, cpu, devices) = >>=-eq-next (check_cpu_compatibility start) check_devices checks in
    let same : u.report ≡ t = ground arith in
    cc (same, check_devices-Keeps v u devices, check_cpu-Keeps start v cpu)

-- A state with the native range `n`, no GPU and no storage controller.
record IsEmptyAt (n : Range) (s : Checker) : Type 0 where
  native : s.native ≡ some n
  gpu : s.report.gpu ≡ []
  storage : s.report.storage ≡ []

abbrev Returns : Range → Outcome Checker → Type 0
Returns n m = (u : Checker) × (m ≡ next u) × IsEmptyAt n u

step-Returns :
    (n : Range) (devices : Report → Dict Device) (check : Checker → Outcome Checker)
    → ((s : Checker) → IsEmptyAt n s → Returns n (check s))
    → (s : Checker) → IsEmptyAt n s
    → Returns n (step devices check s)
step-Returns n devices check returns s h =
    elim (devices s.report) as (λ ds. Returns n (elim ds [ [] ↦ next s | _ ∷ _ ↦ check s ])) [
      | [] ↦ (s, refl, h)
      | _ ∷ _ ↦ returns s h
    ]

bind-Returns :
    (n : Range) (m : Outcome Checker) (check : Checker → Outcome Checker)
    → Returns n m
    → ((s : Checker) → IsEmptyAt n s → Returns n (check s))
    → Returns n (m >>= check)
bind-Returns n m check (u, e, h) returns =
    subst (λ o. Returns n (o >>= check)) (sym e) (returns u h)

sound-Returns : (n : Range) (s : Checker) → IsEmptyAt n s → Returns n (check_sound_compatibility s)
unfolding check_sound_compatibility
sound-Returns n s h = (_, refl, record { native = h.native; gpu = h.gpu; storage = h.storage })

biometric-Returns :
    (n : Range) (s : Checker) → IsEmptyAt n s → Returns n (check_biometric_compatibility s)
unfolding check_biometric_compatibility
biometric-Returns n s h = (_, refl, record { native = h.native; gpu = h.gpu; storage = h.storage })

network-Returns :
    (n : Range) (s : Checker) → IsEmptyAt n s → Returns n (check_network_compatibility s)
unfolding check_network_compatibility
network-Returns n s h = (_, refl, record { native = h.native; gpu = h.gpu; storage = h.storage })

bluetooth-Returns :
    (n : Range) (s : Checker) → IsEmptyAt n s → Returns n (check_bluetooth_compatibility s)
unfolding check_bluetooth_compatibility
bluetooth-Returns n s h = (_, refl, record { native = h.native; gpu = h.gpu; storage = h.storage })

sd-Returns :
    (n : Range) (s : Checker) → IsEmptyAt n s → Returns n (check_sd_controller_compatibility s)
unfolding check_sd_controller_compatibility
sd-Returns n s h = (_, refl, record { native = h.native; gpu = h.gpu; storage = h.storage })

-- A step over a class without devices does nothing.
skip-Returns :
    (n : Range) (devices : Report → Dict Device) (check : Checker → Outcome Checker)
    → ((s : Checker) → IsEmptyAt n s → devices s.report ≡ [])
    → (s : Checker) → IsEmptyAt n s
    → Returns n (step devices check s)
skip-Returns n devices check empty s h = (s, rw (empty s h, step), h)

check_devices-Returns : (n : Range) (s : Checker) → IsEmptyAt n s → Returns n (check_devices s)
unfolding check_devices
check_devices-Returns n s h =
    bind-Returns n _ _
      (bind-Returns n _ _
        (bind-Returns n _ _
          (bind-Returns n _ _
            (bind-Returns n _ _
              (bind-Returns n _ _
                (skip-Returns n (λ r. r.gpu) check_gpu_compatibility (λ u e. e.gpu) s h)
                (step-Returns n (λ r. r.sound) _ (sound-Returns n)))
              (step-Returns n (λ r. r.biometric) _ (biometric-Returns n)))
            (step-Returns n (λ r. r.network) _ (network-Returns n)))
          (skip-Returns n (λ r. r.storage) check_storage_compatibility (λ u e. e.storage)))
        (step-Returns n (λ r. r.bluetooth) _ (bluetooth-Returns n)))
      (step-Returns n (λ r. r.sd_controller) _ (sd-Returns n))

-- A report without any GPU and without any storage controller passes the check if its CPU is
-- supported, with the range of the CPU as the native one: the steps of the two classes, which would
-- leave the program with "No GPU found!" and "No storage controller found!", are skipped.
pub check_compatibility_without_gpu :
    (r : Report) (n : Range)
    → cpu_compatibility r.cpu.simd_features ≡ some n
    → r.gpu ≡ []
    → r.storage ≡ []
    → (t : Report) × (ocl : Option Range) × (check_compatibility r ≡ next (t, n, ocl))
unfolding check_compatibility check_cpu_compatibility
check_compatibility_without_gpu r n e no_gpu no_storage =
    let start : Checker = record {
      report = record r { cpu = record r.cpu { compatibility = some (some n) } };
      native = some n;
      ocl_patched = none;
    } in
    let (u, checks, h) =
      check_devices-Returns n start
        (record { native = refl; gpu = no_gpu; storage = no_storage }) in
    let native = h.native in (u.report, u.ocl_patched, ground arith)

-- ===== src/Compat/Run/Native.antt =====
-- The native range through the steps of the compatibility check.
use freaky_ocs.Base.{◌≡◌, sym, Option, none, some, [], ◌∷◌, Option-cases, inl, inr, arith, refl}
use freaky_ocs.Base.Dict.{Dict}
use freaky_ocs.Darwin.{≤ᵥ_refl}
use freaky_ocs.Report.{Range, Device, Report}
use freaky_ocs.Compat.State.{Outcome, next, raised, Checker, ◌>>=◌, >>=-eq-next, next-injective}
use freaky_ocs.Compat.Cpu.{check_cpu_compatibility, cpu_compatibility}
use freaky_ocs.Compat.Gpu.Check.{check_gpu_compatibility, narrow}
use freaky_ocs.Compat.Gpu.Hull.{Within, Within-trans}
use freaky_ocs.Compat.Gpu.Narrowing.{check_gpu_compatibility-narrows}
use freaky_ocs.Compat.Devices.{
  check_sound_compatibility, check_biometric_compatibility, check_network_compatibility,
}
use freaky_ocs.Compat.Storage.{
  check_storage_compatibility, check_bluetooth_compatibility, check_sd_controller_compatibility,
  finish_storage, storage_loop,
}
use freaky_ocs.Compat.Run.{step, check_devices, check_compatibility}

-- A native range within `c`.
abbrev IsNarrowed : Range → Checker → Type 0
IsNarrowed c s = (n : Range) × (s.native ≡ some n) × Within n c

-- A check that keeps the native range within each range that it was in.
abbrev Narrows : (Checker → Outcome Checker) → Type 0
Narrows check = (c : Range) (s t : Checker) → IsNarrowed c s → check s ≡ next t → IsNarrowed c t

keeps-Narrows :
    (check : Checker → Outcome Checker)
    → ((s t : Checker) → check s ≡ next t → t.native ≡ s.native)
    → Narrows check
keeps-Narrows check keeps c s t (n, e, w) h = (n, cc (keeps s t h, e), w)

gpu-Narrows : Narrows check_gpu_compatibility
gpu-Narrows c s t (n, e, w) h =
    let (before, hull, was, now, inside, counted, attained) =
      check_gpu_compatibility-narrows s t h in
    let same : before ≡ n = ground arith in
    (narrow hull before, now, Within-trans (narrow hull before) before c inside (rw same w))

native_sound : (s t : Checker) → check_sound_compatibility s ≡ next t → t.native ≡ s.native
unfolding check_sound_compatibility
native_sound s t h = ground arith

native_biometric : (s t : Checker) → check_biometric_compatibility s ≡ next t → t.native ≡ s.native
unfolding check_biometric_compatibility
native_biometric s t h = ground arith

native_network : (s t : Checker) → check_network_compatibility s ≡ next t → t.native ≡ s.native
unfolding check_network_compatibility
native_network s t h = ground arith

native_bluetooth : (s t : Checker) → check_bluetooth_compatibility s ≡ next t → t.native ≡ s.native
unfolding check_bluetooth_compatibility
native_bluetooth s t h = ground arith

native_sd : (s t : Checker) → check_sd_controller_compatibility s ≡ next t → t.native ≡ s.native
unfolding check_sd_controller_compatibility
native_sd s t h = ground arith

native-finish_storage :
    (s t : Checker) (ds : Dict Device) → finish_storage s ds ≡ next t → t.native ≡ s.native
unfolding finish_storage
native-finish_storage s t ds h = ground arith

native_storage : (s t : Checker) → check_storage_compatibility s ≡ next t → t.native ≡ s.native
unfolding check_storage_compatibility
native_storage s t h = kept s.report.storage refl
  where
    kept : (ds : Dict Device) → s.report.storage ≡ ds → t.native ≡ s.native
    kept [] e = absurd (ground arith)
    kept (d ∷ ds) e =
        let (es, loops, finished) =
          >>=-eq-next (storage_loop (d ∷ ds)) (finish_storage s)
            (rw (e, check_storage_compatibility) at h) in
        native-finish_storage s t es finished

step-Narrows :
    (devices : Report → Dict Device) (check : Checker → Outcome Checker)
    → Narrows check
    → Narrows (step devices check)
step-Narrows devices check narrows c s t w h = run (devices s.report) refl
  where
    run : (ds : Dict Device) → devices s.report ≡ ds → IsNarrowed c t
    run [] e = rw (sym (next-injective (rw (e, step) at h))) w
    run (d ∷ ds) e = narrows c s t w (rw (e, step) at h)

bind-Narrows :
    (m : Outcome Checker) (check : Checker → Outcome Checker) (c : Range)
    → ((u : Checker) → m ≡ next u → IsNarrowed c u)
    → Narrows check
    → (t : Checker) → (m >>= check) ≡ next t
    → IsNarrowed c t
bind-Narrows m check c before narrows t h =
    let (u, first, second) = >>=-eq-next m check h in narrows c u t (before u first) second

check_devices-Narrows : Narrows check_devices
unfolding check_devices
check_devices-Narrows c s t w =
    bind-Narrows _ _ c
      (bind-Narrows _ _ c
        (bind-Narrows _ _ c
          (bind-Narrows _ _ c
            (bind-Narrows _ _ c
              (bind-Narrows _ _ c (λ u. step-Narrows (λ r. r.gpu) _ gpu-Narrows c s u w)
                (step-Narrows (λ r. r.sound) _ (keeps-Narrows _ native_sound)))
              (step-Narrows (λ r. r.biometric) _ (keeps-Narrows _ native_biometric)))
            (step-Narrows (λ r. r.network) _ (keeps-Narrows _ native_network)))
          (step-Narrows (λ r. r.storage) _ (keeps-Narrows _ native_storage)))
        (step-Narrows (λ r. r.bluetooth) _ (keeps-Narrows _ native_bluetooth)))
      (step-Narrows (λ r. r.sd_controller) _ (keeps-Narrows _ native_sd)) t

check_cpu-IsNarrowed :
    (r : Report) (t : Checker)
    → check_cpu_compatibility (record { report = r; native = none; ocl_patched = none }) ≡ next t
    → (c : Range) × (cpu_compatibility r.cpu.simd_features ≡ some c) × IsNarrowed c t
unfolding check_cpu_compatibility
check_cpu-IsNarrowed r t h = elim (Option-cases (cpu_compatibility r.cpu.simd_features)) [
  | inl e ↦ absurd (ground arith)
  | inr (c, e) ↦ (c, e, (c, ground arith, record { high = ≤ᵥ_refl c.max; low = ≤ᵥ_refl c.min }))
]

-- When the compatibility check returns, the CPU is supported, and the native range that it returns
-- lies within the range of the CPU.
pub check_compatibility-native :
    (r t : Report) (native : Range) (ocl : Option Range)
    → check_compatibility r ≡ next (t, native, ocl)
    → (c : Range) × (cpu_compatibility r.cpu.simd_features ≡ some c) × Within native c
unfolding check_compatibility
check_compatibility-native r t native ocl h =
    let start : Checker = record { report = r; native = none; ocl_patched = none } in
    let (u, checks, result) =
      >>=-eq-next (check_cpu_compatibility start >>= check_devices)
        (λ s. elim s.native [
          | none ↦ raised
          | some native ↦ next (s.report, native, s.ocl_patched)
        ])
        h in
    let (v, cpu, devices) = >>=-eq-next (check_cpu_compatibility start) check_devices checks in
    let (c, supported, narrowed) = check_cpu-IsNarrowed r v cpu in
    let (n, now, inside) = check_devices-Narrows c v u narrowed devices in
    let same : n ≡ native = ground arith in (c, supported, rw (← same) inside)

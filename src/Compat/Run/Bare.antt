-- ===== src/Compat/Run/Bare.antt =====
-- The report without the marks of the compatibility check, which each check leaves as it is.
use freaky_ocs.Base.{
  String, ◌≡◌, Option, none, [], ◌∷◌, ◌++◌, arith, refl, ap, ◌∙◌, sym, if◌then◌else◌,
}
use mathlib.Core.List.{append-nil}
use freaky_ocs.Base.Dict.{Dict}
use freaky_ocs.Report.{Range, Compatibility, Device, Monitor, Report}
use freaky_ocs.Compat.State.{
  Outcome, next, exit_program, raised, Checker, >>=-eq-next, next-injective,
}
use freaky_ocs.Compat.Cpu.{check_cpu_compatibility}
use freaky_ocs.Compat.Gpu.{assess_gpu}
use freaky_ocs.Compat.Gpu.Check.{
  Tally, assess_gpus, settle_gpu, settle_gpus, finish_gpus, check_gpu_compatibility, is_unsupported,
  tally_gpu,
}
use freaky_ocs.Compat.Devices.{
  mark_devices, sound_compatibility, assess_network, network_loop, network_ocl,
  check_sound_compatibility, check_biometric_compatibility, check_network_compatibility,
}
use freaky_ocs.Compat.Storage.{
  bluetooth_compatibility, sd_compatibility, storage_loop, finish_storage,
  check_storage_compatibility, check_bluetooth_compatibility, check_sd_controller_compatibility,
}

abbrev pub bare : Device → Device
bare d = record d { compatibility = none; oclp = none }

abbrev pub bare_devices : Dict Device → Dict Device
bare_devices [] = []
bare_devices ((name, d) ∷ ds) = (name, bare d) ∷ bare_devices ds

-- The report without "Compatibility" and "OCLP Compatibility".
abbrev pub bare_report : Report → Report
bare_report r = record r {
  cpu = record r.cpu { compatibility = none };
  gpu = bare_devices r.gpu;
  network = bare_devices r.network;
  sound = bare_devices r.sound;
  storage = bare_devices r.storage;
  biometric = bare_devices r.biometric;
  bluetooth = bare_devices r.bluetooth;
  sd_controller = bare_devices r.sd_controller;
}

bare_devices-mark_devices :
    (f : Device → Compatibility) (ds : Dict Device)
    → bare_devices (mark_devices f ds) ≡ bare_devices ds
unfolding mark_devices
bare_devices-mark_devices f [] = refl
bare_devices-mark_devices f ((name, d) ∷ ds) =
    ap (λ r. (name, bare d) ∷ r) (bare_devices-mark_devices f ds)

bare-assess_network : (d : Device) → bare (assess_network d) ≡ bare d
unfolding assess_network
bare-assess_network d = ground arith

bare_devices-network_loop :
    (ds : Dict Device) (ocl : Option Range) → bare_devices (network_loop ds ocl).0 ≡ bare_devices ds
unfolding network_loop
bare_devices-network_loop [] ocl = refl
bare_devices-network_loop ((name, d) ∷ ds) ocl =
    cc (bare-assess_network d, bare_devices-network_loop ds (network_ocl ocl d))

bare-assess_gpu : (r : Report) (name : String) (g : Device) → bare (assess_gpu r name g) ≡ bare g
unfolding assess_gpu
bare-assess_gpu r name g = ground arith

bare_devices-assess_gpus :
    (r : Report) (ds : Dict Device) → bare_devices (assess_gpus r ds) ≡ bare_devices ds
unfolding assess_gpus
bare_devices-assess_gpus r [] = refl
bare_devices-assess_gpus r ((name, d) ∷ ds) =
    cc (bare-assess_gpu r name d, bare_devices-assess_gpus r ds)

bare-settle_gpu :
    (monitors : Dict Monitor) (gpus : Dict Device) (name : String) (g : Device)
    → bare (if is_unsupported g then g else settle_gpu monitors gpus name g) ≡ bare g
unfolding settle_gpu
bare-settle_gpu monitors gpus name g = ground arith

-- A device in the middle may be replaced by one with the same properties.
bare_devices-replace :
    (done : Dict Device) (name : String) (g g' : Device) (rest : Dict Device)
    → bare g' ≡ bare g
    → bare_devices (done ++ (name, g') ∷ [] ++ rest) ≡ bare_devices (done ++ (name, g) ∷ rest)
bare_devices-replace [] name g g' rest h = ap (λ d. (name, d) ∷ bare_devices rest) h
bare_devices-replace ((other, d) ∷ done) name g g' rest h =
    ap (λ r. (other, bare d) ∷ r) (bare_devices-replace done name g g' rest h)

bare_devices-settle_gpus :
    (monitors : Dict Monitor) (done todo : Dict Device) (t : Tally) {gpus : Dict Device} {u : Tally}
    → settle_gpus monitors done todo t ≡ next (gpus, u)
    → bare_devices gpus ≡ bare_devices (done ++ todo)
unfolding settle_gpus
bare_devices-settle_gpus monitors done [] t {gpus} h =
    rw append-nil (ap (λ (p : Dict Device × Tally). bare_devices p.0) (sym (next-injective h)))
bare_devices-settle_gpus monitors done ((name, g) ∷ rest) t {gpus} h =
    let g' =
      if is_unsupported g then g else settle_gpu monitors (done ++ (name, g) ∷ rest) name g in
    let (t', counts, more) =
      >>=-eq-next (tally_gpu t (is_unsupported g) g')
        (λ t'. settle_gpus monitors (done ++ (name, g') ∷ []) rest t') h in
    bare_devices-settle_gpus monitors (done ++ (name, g') ∷ []) rest t' more
    ∙ bare_devices-replace done name g g' rest
        (bare-settle_gpu monitors (done ++ (name, g) ∷ rest) name g)

bare_devices-storage_loop :
    (ds : Dict Device) {es : Dict Device}
    → storage_loop ds ≡ next es
    → bare_devices es ≡ bare_devices ds
unfolding storage_loop
bare_devices-storage_loop [] h = ap bare_devices (sym (next-injective h))
bare_devices-storage_loop ((name, d) ∷ ds) {es} h =
    after (storage_loop ds) refl (λ es' e. bare_devices-storage_loop ds {es = es'} e)
  where
    after :
        (o : Outcome (Dict Device))
        → storage_loop ds ≡ o
        → ((es' : Dict Device) → storage_loop ds ≡ next es' → bare_devices es' ≡ bare_devices ds)
        → bare_devices es ≡ (name, bare d) ∷ bare_devices ds
    after (next es') e ih = ground (arith, ih es' e)
    after exit_program e ih = absurd (ground arith)
    after raised e ih = absurd (ground arith)

-- Every check that returns leaves the bare report as it was.
abbrev pub Keeps : (Checker → Outcome Checker) → Type 0
Keeps check = (s t : Checker) → check s ≡ next t → bare_report t.report ≡ bare_report s.report

pub check_cpu-Keeps : Keeps check_cpu_compatibility
unfolding check_cpu_compatibility
check_cpu-Keeps s t h = ground arith

report-finish_gpus :
    (s : Checker) (gpus : Dict Device) (u : Tally) {t : Checker}
    → finish_gpus s (gpus, u) ≡ next t
    → t.report ≡ record s.report { gpu = gpus }
unfolding finish_gpus
report-finish_gpus s gpus u h = ground arith

report-finish_storage :
    (s : Checker) (ds : Dict Device) {t : Checker}
    → finish_storage s ds ≡ next t
    → t.report ≡ record s.report { storage = ds }
unfolding finish_storage
report-finish_storage s ds h = ground arith

pub check_gpu-Keeps : Keeps check_gpu_compatibility
unfolding check_gpu_compatibility
check_gpu-Keeps s t h = kept s.report.gpu refl
  where
    kept : (gpus : Dict Device) → s.report.gpu ≡ gpus → bare_report t.report ≡ bare_report s.report
    kept [] e = absurd (ground arith)
    kept (gpu ∷ gpus) e =
        let start : Tally = record { supported = none; ocl_patched = s.ocl_patched } in
        let assessed = assess_gpus s.report (gpu ∷ gpus) in
        let ((settled, u), loops, finished) =
          >>=-eq-next (settle_gpus s.report.monitor [] assessed start) (finish_gpus s)
            (rw (e, check_gpu_compatibility) at h) in
        cc (
          report-finish_gpus s settled u finished,
          bare_devices-settle_gpus s.report.monitor [] assessed start loops,
          bare_devices-assess_gpus s.report (gpu ∷ gpus),
          e,
        )

pub check_sound-Keeps : Keeps check_sound_compatibility
unfolding check_sound_compatibility
check_sound-Keeps s t h =
    ground (arith, bare_devices-mark_devices sound_compatibility s.report.sound)

pub check_biometric-Keeps : Keeps check_biometric_compatibility
unfolding check_biometric_compatibility
check_biometric-Keeps s t h =
    ground (arith, bare_devices-mark_devices (λ (d : Device). none) s.report.biometric)

pub check_network-Keeps : Keeps check_network_compatibility
unfolding check_network_compatibility
check_network-Keeps s t h = ground (arith, bare_devices-network_loop s.report.network s.ocl_patched)

pub check_storage-Keeps : Keeps check_storage_compatibility
unfolding check_storage_compatibility finish_storage
check_storage-Keeps s t h = kept s.report.storage refl
  where
    kept : (ds : Dict Device) → s.report.storage ≡ ds → bare_report t.report ≡ bare_report s.report
    kept [] e = absurd (ground arith)
    kept (d ∷ ds) e =
        let (es, loops, finished) =
          >>=-eq-next (storage_loop (d ∷ ds)) (finish_storage s)
            (rw (e, check_storage_compatibility) at h) in
        cc (report-finish_storage s es finished, bare_devices-storage_loop (d ∷ ds) loops, e)

pub check_bluetooth-Keeps : Keeps check_bluetooth_compatibility
unfolding check_bluetooth_compatibility
check_bluetooth-Keeps s t h =
    ground (arith, bare_devices-mark_devices bluetooth_compatibility s.report.bluetooth)

pub check_sd-Keeps : Keeps check_sd_controller_compatibility
unfolding check_sd_controller_compatibility
check_sd-Keeps s t h =
    ground (arith, bare_devices-mark_devices sd_compatibility s.report.sd_controller)

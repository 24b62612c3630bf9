-- ===== src/Compat/Run.antt =====
-- `check_compatibility`: the steps in order, each only if the report has devices of the class
-- (Scripts/compatibility_checker.py).
pub mod Bare
pub mod Laws
pub mod Native
use freaky_ocs.Base.{Bool, true, false, Option, none, some, List, [], ◌∷◌, if◌then◌else◌}
use freaky_ocs.Base.Dict.{Dict}
use freaky_ocs.Report.{Range, Device, Report}
use freaky_ocs.Compat.State.{Outcome, next, raised, ◌>>=◌, Checker}
use freaky_ocs.Compat.Cpu.{check_cpu_compatibility}
use freaky_ocs.Compat.Gpu.Check.{check_gpu_compatibility}
use freaky_ocs.Compat.Devices.{
  check_sound_compatibility, check_biometric_compatibility, check_network_compatibility,
}
use freaky_ocs.Compat.Storage.{
  check_storage_compatibility, check_bluetooth_compatibility, check_sd_controller_compatibility,
}

-- `if self.hardware_report.get(device_type): function()`
abbrev pub step : (Report → Dict Device) → (Checker → Outcome Checker) → Checker → Outcome Checker
step devices check s = elim (devices s.report) [ [] ↦ next s | _ ∷ _ ↦ check s ]

unfoldable pub check_devices : Checker → Outcome Checker
check_devices s =
    step (λ r. r.gpu) check_gpu_compatibility s
    >>= step (λ r. r.sound) check_sound_compatibility
    >>= step (λ r. r.biometric) check_biometric_compatibility
    >>= step (λ r. r.network) check_network_compatibility
    >>= step (λ r. r.storage) check_storage_compatibility
    >>= step (λ r. r.bluetooth) check_bluetooth_compatibility
    >>= step (λ r. r.sd_controller) check_sd_controller_compatibility

-- The report, the native range and the range of OpenCore Legacy Patcher.
unfoldable pub check_compatibility : Report → Outcome (Report × Range × Option Range)
check_compatibility r =
    check_cpu_compatibility (record { report = r; native = none; ocl_patched = none })
    >>= check_devices
    >>= λ s. elim s.native [ none ↦ raised | some native ↦ next (s.report, native, s.ocl_patched) ]

-- ===== src/Compat/Cpu.antt =====
-- The CPU check: Scripts/compatibility_checker.py.
pub mod Laws
use freaky_ocs.Base.{String, Bool, true, Option, none, some, includes, ◌||◌, if◌then◌else◌}
use freaky_ocs.Darwin.{version, Version}
use freaky_ocs.Report.{Range, Compatibility, Cpu, Report}
use freaky_ocs.Compat.State.{Outcome, next, exit_program, Checker, range, full_range}

unfoldable pub is_low_end_intel_cpu : String → Bool
is_low_end_intel_cpu processor_name =
    includes processor_name "Celeron" || includes processor_name "Pentium"

-- The versions that the SIMD features allow.
unfoldable pub cpu_compatibility : String → Compatibility
cpu_compatibility simd =
    if includes simd "SSE4"
    then if includes simd "SSE4.2"
      then some full_range
      else some (
          range (if includes simd "SSE4.1" then version 21 99 99 else full_range.max)
            (version 18 0 0))
    else none

unfoldable pub check_cpu_compatibility : Checker → Outcome Checker
check_cpu_compatibility s =
    let found = cpu_compatibility s.report.cpu.simd_features in
    let report' = record s.report { cpu = record s.report.cpu { compatibility = some found } } in
    elim found [
      | none ↦ exit_program
      | some r ↦ next (record s { report = report'; native = some r })
    ]

-- ===== src/Compat/Cpu/Laws.antt =====
-- What the CPU check promises.
use freaky_ocs.Base.{
  String, ◌≡◌, ◌↔◌, ◌⊎◌, true, false, none, some, arith, includes, refl, Option-cases, inl, inr,
}
use mathlib.Core.Path.{subst}
use freaky_ocs.Darwin.{◌≤ᵥ◌, le_version}
use freaky_ocs.Report.{Range, Compatibility}
use freaky_ocs.Compat.State.{next, exit_program, Checker, full_range}
use freaky_ocs.Compat.Cpu.{cpu_compatibility, check_cpu_compatibility}

-- A range that is not empty and lies between the lowest and the latest macOS.
pub record IsWithin (r : Range) : Type 0 where
  pub low : full_range.min ≤ᵥ r.min
  pub ordered : r.min ≤ᵥ r.max
  pub high : r.max ≤ᵥ full_range.max

-- `none`, or a range within the supported versions.
abbrev pub Fits : Compatibility → Type 0
Fits none = Unit
Fits (some r) = IsWithin r

cpu_compatibility-Fits : (simd : String) → Fits (cpu_compatibility simd)
unfolding cpu_compatibility le_version full_range
cpu_compatibility-Fits simd = ground arith

cpu_compatibility-eq-none :
    (simd : String) → (cpu_compatibility simd ≡ none) ↔ (includes simd "SSE4" ≡ false)
unfolding cpu_compatibility
cpu_compatibility-eq-none simd = ground arith

-- The CPU check either leaves the program, where the SIMD features do not name SSE4, or returns,
-- where they do: then it records a range in the report and takes it as the native range, and the
-- range is not empty and lies within the supported versions.
pub check_cpu_compatibility_lem :
    (s : Checker)
    → ((includes s.report.cpu.simd_features "SSE4" ≡ false)
        × (check_cpu_compatibility s ≡ exit_program))
      ⊎ ((r : Range) × (t : Checker) × (includes s.report.cpu.simd_features "SSE4" ≡ true)
          × (check_cpu_compatibility s ≡ next t)
          × (t.native ≡ some r)
          × (t.report.cpu.compatibility ≡ some (some r))
          × IsWithin r)
unfolding check_cpu_compatibility
check_cpu_compatibility_lem s =
    let simd = s.report.cpu.simd_features in
    elim (Option-cases (cpu_compatibility simd)) [
      | inl e ↦ inl (ground (arith, cpu_compatibility-eq-none simd), ground arith)
      | inr (r, e) ↦ inr (
        r,
        record s {
          report = record s.report { cpu = record s.report.cpu { compatibility = some (some r) } };
          native = some r;
        },
        ground (arith, cpu_compatibility-eq-none simd),
        ground arith,
        refl,
        refl,
        subst Fits e (cpu_compatibility-Fits simd),
      )
    ]

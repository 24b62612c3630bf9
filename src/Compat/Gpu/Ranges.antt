-- ===== src/Compat/Gpu/Ranges.antt =====
-- Each GPU's ranges are in order.
use freaky_ocs.Base.{
  String, ◌≡◌, ◌⊎◌, inl, inr, Bool-cases, Bool, true, none, some, arith, if◌then◌else◌, if_both,
  includes, drop_chars,
}
use freaky_ocs.Darwin.{Version, ◌≤ᵥ◌, le_version, lt_version}
use freaky_ocs.Report.{Range, Device, Report}
use freaky_ocs.Compat.State.{full_range, range}
use freaky_ocs.Compat.Cpu.Laws.{IsWithin}
use freaky_ocs.Compat.Gpu.{
  GpuRanges, gpu_ranges, default_ocl_max, default_ocl_min, assess_gpu, intel_native, amd_ranges,
  nvidia_native, ranges_of_gpu, next_major, avx2_family,
}

-- The patched range lies above the native one wherever a GPU gets both.
abbrev IsOrdered : GpuRanges → Type 0
IsOrdered found = elim found.native [
  | none ↦ Unit
  | some n ↦
      IsWithin n
      × (lt_version n.max found.ocl.max ≡ true
          → (next_major n.max ≤ᵥ found.ocl.max) × (found.ocl.min ≤ᵥ found.ocl.max))
]

amd_ranges-IsOrdered :
    (codename id : String) (avx2 : Bool) → IsOrdered (amd_ranges codename id avx2)
unfolding amd_ranges le_version full_range avx2_family
amd_ranges-IsOrdered codename id avx2 = ground arith

intel_native-IsOrdered :
    (id platform name : String)
    → IsOrdered (gpu_ranges (intel_native id platform name) default_ocl_max default_ocl_min)
unfolding intel_native le_version full_range
intel_native-IsOrdered id platform name = ground arith

nvidia_native-IsOrdered :
    (codename : String)
    → IsOrdered (gpu_ranges (nvidia_native codename) default_ocl_max default_ocl_min)
unfolding nvidia_native le_version full_range
nvidia_native-IsOrdered codename = ground arith

full_range-IsOrdered : IsOrdered (gpu_ranges (some full_range) default_ocl_max default_ocl_min)
unfolding le_version full_range
full_range-IsOrdered = ground arith

ranges_of_gpu-IsOrdered : (r : Report) (g : Device) → IsOrdered (ranges_of_gpu r g)
unfolding ranges_of_gpu
ranges_of_gpu-IsOrdered r g =
    if_both IsOrdered (includes g.manufacturer "Intel")
      (intel_native-IsOrdered (drop_chars 5 g.device_id) r.platform r.cpu.processor_name)
      (if_both IsOrdered (includes g.manufacturer "AMD") (amd_ranges-IsOrdered _ _ _) (
        if_both IsOrdered (includes g.manufacturer "NVIDIA") (nvidia_native-IsOrdered g.codename)
          full_range-IsOrdered))

-- The lower end that the first loop chooses for the patched range.
oclp_min-lt :
    (n o : Version) → lt_version n (if lt_version (next_major n) o then o else next_major n) ≡ true
unfolding lt_version
oclp_min-lt n o = ground arith

oclp_min-le :
    (n o m : Version)
    → next_major n ≤ᵥ m
    → o ≤ᵥ m
    → (if lt_version (next_major n) o then o else next_major n) ≤ᵥ m
oclp_min-le n o m h k = ground arith

-- What the first loop promises of a GPU that it marks as supported: the native range is not empty
-- and lies within the supported versions. Its range of OpenCore Legacy Patcher is the one that it
-- had, or one that is not empty and begins above the end of the native range.
pub assess_gpu-ranges :
    (r : Report) (name : String) (g : Device) (n : Range)
    → (assess_gpu r name g).compatibility ≡ some (some n)
    → IsWithin n
      × (((assess_gpu r name g).oclp ≡ g.oclp)
          ⊎ ((o : Range) × ((assess_gpu r name g).oclp ≡ some o)
              × (lt_version n.max o.min ≡ true)
              × (o.min ≤ᵥ o.max)))
unfolding assess_gpu
assess_gpu-ranges r name g n h =
    let found = ranges_of_gpu r g in
    elim (Bool-cases (lt_version n.max found.ocl.max)) [
      | inl more ↦ (
        ground (arith, ranges_of_gpu-IsOrdered r g),
        inr (
          range found.ocl.max (
              if lt_version (next_major n.max) found.ocl.min
              then found.ocl.min
              else next_major n.max),
          ground arith,
          oclp_min-lt n.max found.ocl.min,
          ground
              (arith, ranges_of_gpu-IsOrdered r g, oclp_min-le n.max found.ocl.min found.ocl.max),
        ),
      )
      | inr no_more ↦ (ground (arith, ranges_of_gpu-IsOrdered r g), inl (ground arith))
    ]
